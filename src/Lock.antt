-- ===== src/Lock.antt =====
-- `RedisLock` and `redis_lock` of app/redis_layer/lock.py. The server has a clock, by which keys
-- expire, and the event loop has one, by which `acquire` gives up; both count milliseconds.
use redis_project.Base.{
  ℕ, zero, suc, ◌+◌, ◌*◌, ◌^◌, Bool, true, false, ◌||◌, not, Option, none, some, Text, text_eq,
  ◌==◌, leb, if◌then◌else◌,
}
use Prim.Native.Nat.{min}
use redis_project.Redis.Strings.{StringServer}
pub mod Exclusion
pub mod Acquire
pub mod Scope

pub record RedisLock : Type 0 where
  pub key : Text
  pub ttl_ms : ℕ
  pub wait_ms : ℕ
  pub retry_ms : ℕ
  pub token : Text
  pub acquired : Bool

-- `__init__`; the token is a fresh uuid.
unfoldable pub new_lock : Text → ℕ → ℕ → ℕ → Text → RedisLock
new_lock key ttl_ms wait_ms retry_interval_ms token = record {
  key = key;
  ttl_ms = ttl_ms;
  wait_ms = wait_ms;
  retry_ms = retry_interval_ms;
  token = token;
  acquired = false;
}

-- A time to sleep: `units / 2 ^ halvings` milliseconds. The factor 1.5 keeps it in this form.
pub record Backoff : Type 0 where
  pub units : ℕ
  pub halvings : ℕ

unfoldable pub first_backoff : ℕ → Backoff
first_backoff retry_ms = record { units = retry_ms; halvings = 0 }

-- `min(backoff * 1.5, 0.5)`
unfoldable pub longer : Backoff → Backoff
longer b = record {
  units = min (3 * b.units) (500 * 2 ^ (b.halvings + 1));
  halvings = b.halvings + 1;
}

module _ (r : StringServer) where
  open r use {Server, get, set_nx, del}

  pub record World : Type 0 where
    pub server : Server
    pub server_now : ℕ
    pub loop_now : ℕ

  -- `_RELEASE_LUA`: deletes the key if it holds the token.
  unfoldable pub release_lua : Server → ℕ → Text → Text → ℕ × Server
  release_lua s now key token = elim (get s now key) [
    | none ↦ (0, s)
    | some v ↦ if text_eq v token then del s now key else (0, s)
  ]

  -- The `SET NX PX` of `acquire`.
  unfoldable pub attempt : RedisLock → World → Bool × World
  attempt lock w =
      let (ok, s) = set_nx w.server w.server_now lock.key lock.token lock.ttl_ms in
      (ok, record { server = s; server_now = w.server_now; loop_now = w.loop_now })

  -- `release`
  unfoldable pub release : RedisLock → World → Bool × RedisLock × World
  unfolding release_lua
  release lock w =
      if not lock.acquired
      then (false, lock, w)
      else (let (n, s) = release_lua w.server w.server_now lock.key lock.token in
          (
            not (n == 0),
            record lock { acquired = false },
            record { server = s; server_now = w.server_now; loop_now = w.loop_now },
          ))

  -- What goes on while the task sleeps: time passes, and others use the server.
  module _ (sleep : Backoff → World → World) where
    -- The `while` loop of `acquire`; `none` means that the fuel ran out.
    unfoldable pub acquire_loop :
        ℕ → RedisLock → ℕ → Backoff → World → Option (Bool × RedisLock × World)
    acquire_loop zero lock deadline backoff w = none
    acquire_loop (suc fuel) lock deadline backoff w =
        let (ok, w') = attempt lock w in
        let again = acquire_loop fuel lock deadline (longer backoff) (sleep backoff w') in
        if ok
        then some (true, record lock { acquired = true }, w')
        else (if lock.wait_ms == 0 || leb deadline w'.loop_now
            then some (false, lock, w')
            else again)

    unfoldable pub acquire : ℕ → RedisLock → World → Option (Bool × RedisLock × World)
    acquire fuel lock w =
        acquire_loop fuel lock (w.loop_now + lock.wait_ms) (first_backoff lock.retry_ms) w

    -- `__aenter__`: the lock, or `LockAcquireError`.
    pub data Entered : Type 0 where
      entered : RedisLock → World → Entered
      lock_acquire_error : World → Entered

    unfoldable pub enter : ℕ → RedisLock → World → Option Entered
    enter fuel lock w = elim (acquire fuel lock w) [
      | none ↦ none
      | some (ok, lock', w') ↦ some (if ok then entered lock' w' else lock_acquire_error w')
    ]

    -- `async with redis_lock(…) as lock`, around a body.
    unfoldable pub redis_lock :
        {A : Type 0}
        → ℕ
        → Text
        → ℕ
        → ℕ
        → Text
        → (Option RedisLock → World → A × World)
        → World
        → Option (A × World)
    redis_lock fuel key ttl_ms wait_ms token body w =
        elim (acquire fuel (new_lock key ttl_ms wait_ms 50 token) w) [
          | none ↦ none
          | some (ok, lock, w1) ↦
              let (a, w2) = body (if ok then some lock else none) w1 in
              some (a, if ok then (release lock w2).2 else w2)
        ]
