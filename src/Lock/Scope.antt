-- ===== src/Lock/Scope.antt =====
-- A body under `async with redis_lock(…)`, and what a release does to the key.
use redis_project.Base.{
  ℕ, ◌+◌, ◌≤◌, ◌<◌, ◌≡◌, ◌≢◌, ap, ◌∙◌, inl, inr, Bool, true, false, Option, none, some, Text,
  text_eq, text_eq_refl, text_eq_ne, Option-cases, Bool-cases, arith,
}
use redis_project.Redis.Strings.{StringServer}
use redis_project.Lock.{
  RedisLock, Backoff, World, new_lock, release_lua, release, acquire, redis_lock,
}
use redis_project.Lock.Acquire.{Sleeps, Outcome, acquire-Returned}

module _ (r : StringServer) where
  open r use {Server, get}

  -- The compare-and-delete script, on all of its branches: where the key holds the token, it is
  -- deleted, for good unless it is set anew, and 1 is returned; where it holds something else or
  -- nothing, the server is left alone and 0 is returned. Other keys keep their values.
  pub release_lua_lem :
      (s : Server) (now : ℕ) (key token : Text)
      → ((get s now key ≡ some token)
          → ((release_lua r s now key token).0 ≡ 1)
            × ((u : ℕ) → now ≤ u → get (release_lua r s now key token).1 u key ≡ none)
            × ((u : ℕ) (j : Text)
                → now ≤ u
                → j ≢ key
                → get (release_lua r s now key token).1 u j ≡ get s u j))
        × ((get s now key ≢ some token) → release_lua r s now key token ≡ (0, s))
  unfolding release_lua
  release_lua_lem s now key token = (
    λ own.
        rw (own, release_lua, text_eq_refl token)
          (
            r.del_present s now key token own,
            λ u later. r.get_del s now key u later,
            λ u j later differs. r.del_other s now key u j later differs,
          ),
    λ foreign. elim (Option-cases (get s now key)) [
      | inl free ↦ rw (free, release_lua)
      | inr (v, held) ↦ rw (held, release_lua, text_eq_ne v token (λ e. foreign (held ∙ ap some e)))
    ],
  )

  -- A release never removes a key that holds another lock's token, also by a lock that believes
  -- that it holds the key; it reports false, and afterwards the lock's flag is down.
  pub release_foreign :
      (lock : RedisLock) (w : World r)
      → get w.server w.server_now lock.key ≢ some lock.token
      → release r lock w ≡ (false, record lock { acquired = false }, w)
  unfolding release
  release_foreign lock w foreign = elim (Bool-cases lock.acquired) [
    | inl held ↦
        rw (held, release, (release_lua_lem w.server w.server_now lock.key lock.token).1 foreign)
    | inr idle ↦ rw (idle, release)
  ]

  release_lua_clears :
      (s : Server) (now : ℕ) (key token : Text)
      → get (release_lua r s now key token).1 now key ≢ some token
  unfolding release_lua
  release_lua_clears s now key token = elim (Option-cases (get s now key)) [
    | inl free ↦ rw (free, release_lua) (rw free (λ e. cc e))
    | inr (v, there) ↦ elim (Bool-cases (text_eq v token)) [
      | inl own ↦ rw (there, release_lua, own, r.get_del s now key now (omega arith)) (λ e. cc e)
      | inr other ↦ rw (there, release_lua, other, there) (λ e. differ v token other (cc e))
    ]
  ]
    where
      differ : (v w : Text) → text_eq v w ≡ false → v ≡ w → ⊥
      differ v w h e = let k : text_eq v w ≡ true = rw e (text_eq_refl w) in cc

  -- After a release by a lock that holds the key, or believes so, the key does not hold its token.
  release_clears :
      (lock : RedisLock) (w : World r)
      → lock.acquired ≡ true
      → let w' = (release r lock w).2 in get w'.server w'.server_now lock.key ≢ some lock.token
  unfolding release
  release_clears lock w held =
      rw (held, release) (release_lua_clears w.server w.server_now lock.key lock.token)

  module _ (sleep : Backoff → World r → World r) where
    -- The result of a body under a lock, by the lock and the world with which `acquire` returned.
    abbrev pub BodyRun :
        {A : Type 0}
        → Text
        → Text
        → (Option RedisLock → World r → A × World r)
        → Option (A × World r)
        → Bool
        → RedisLock
        → World r
        → Type 0
    BodyRun key token body result true lock w1 =
        (w3 : World r) × (result ≡ some ((body (some lock) w1).0, w3))
        × (get w3.server w3.server_now key ≢ some token)
    BodyRun key token body result false lock w1 = result ≡ some (body none w1)

    body_run :
        {A : Type 0} (fuel : ℕ) (key : Text) (ttl_ms wait_ms : ℕ) (token : Text)
        (body : Option RedisLock → World r → A × World r) (w : World r) (ok : Bool)
        (lock : RedisLock) (w1 : World r)
        → acquire r sleep fuel (new_lock key ttl_ms wait_ms 50 token) w ≡ some (ok, lock, w1)
        → Outcome r sleep (new_lock key ttl_ms wait_ms 50 token) (w.loop_now + wait_ms) ok lock w1
        → BodyRun key token body
            (redis_lock r sleep fuel key ttl_ms wait_ms token body w)
            ok
            lock
            w1
    unfolding redis_lock new_lock
    body_run fuel key ttl_ms wait_ms token body w true lock w1 e out =
        let k : lock.key ≡ key = ap (λ (x : RedisLock). x.key) out.0 in
        let t : lock.token ≡ token = ap (λ (x : RedisLock). x.token) out.0 in
        let clears =
          release_clears lock (body (some lock) w1).1 (ap (λ (x : RedisLock). x.acquired) out.0) in
        ((release r lock (body (some lock) w1).1).2, rw (e, redis_lock), rw (← k, ← t) clears)
    body_run fuel key ttl_ms wait_ms token body w false lock w1 e out = rw (e, redis_lock)

    -- `redis_lock` always runs its body, once: with the lock if it was acquired, and otherwise
    -- with `None`. Then a lock that was acquired is released, so that its token is gone from the
    -- key; without a lock nothing follows the body.
    pub redis_lock-BodyRun :
        {A : Type 0} (fuel : ℕ) (key : Text) (ttl_ms wait_ms : ℕ) (token : Text)
        (body : Option RedisLock → World r → A × World r) (w : World r)
        → Sleeps r sleep
        → wait_ms < fuel
        → (ok : Bool) × (lock : RedisLock) × (w1 : World r) × Outcome r sleep
            (new_lock key ttl_ms wait_ms 50 token)
            (w.loop_now + wait_ms)
            ok
            lock
            w1
          × BodyRun key token body
              (redis_lock r sleep fuel key ttl_ms wait_ms token body w)
              ok
              lock
              w1
    unfolding new_lock
    redis_lock-BodyRun fuel key ttl_ms wait_ms token body w sleeps enough =
        let (ok, lock, w1, e, out) =
          acquire-Returned r sleep (new_lock key ttl_ms wait_ms 50 token) w fuel sleeps
            (omega arith) (omega arith) in
        (ok, lock, w1, out, body_run fuel key ttl_ms wait_ms token body w ok lock w1 e out)
