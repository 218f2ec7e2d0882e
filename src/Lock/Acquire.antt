-- ===== src/Lock/Acquire.antt =====
-- `acquire` comes to an end, and what it returns is so.
use native.Mathlib.Nat.{pow-suc, pow-succ'}
use native.Mathlib.Numerals.{add-one}
use redis_project.Base.{
  ℕ, zero, suc, ◌+◌, ◌-◌, ◌*◌, ◌^◌, ◌≤◌, ◌<◌, ◌≡◌, refl, ap, ◌∙◌, ◌⊎◌, inl, inr, Bool, true, false,
  ◌||◌, Option, none, some, Text, Bool-cases, Option-cases, arith, leb, ◌==◌,
}
use redis_project.Redis.Strings.{StringServer}
use redis_project.Lock.{
  RedisLock, Backoff, first_backoff, longer, World, attempt, acquire_loop, acquire,
}

pub pow_two_pos : (h : ℕ) → 1 ≤ 2 ^ h
pow_two_pos zero = omega arith
pow_two_pos (suc h) = omega (arith, pow-suc 2 h, pow_two_pos h)

-- The sleep takes at least a millisecond.
abbrev IsLong : Backoff → Type 0
IsLong b = 2 ^ b.halvings ≤ b.units

-- A sleep that is no shorter than asked moves the clock on.
advance : (d p units : ℕ) → 1 ≤ p → p ≤ units → units ≤ d * p → 1 ≤ d
advance zero p units h k m = omega arith
advance (suc d) p units h k m = omega arith

longer-IsLong : (b : Backoff) → IsLong b → IsLong (longer b)
unfolding longer
longer-IsLong b h =
    let e : 2 ^ (b.halvings + 1) ≡ 2 * 2 ^ b.halvings =
      ap (◌^◌ 2) (add-one b.halvings) ∙ pow-succ' 2 b.halvings in
    omega (arith, e)

module _ (r : StringServer) (sleep : Backoff → World r → World r) where
  open r use {Server, get}

  -- A sleep takes as long as it is asked to, by the loop's clock.
  pub record Sleeps : Type 0 where
    pub elapsed :
        (b : Backoff) (w : World r) → b.units ≤ ((sleep b w).loop_now - w.loop_now) * 2 ^ b.halvings

  -- What `acquire` has done where it gives back the answer, the lock and the world. Either the key
  -- holds the lock's token until the time to live is over; or somebody else's value is in the way,
  -- and the lock does not wait or its deadline has come.
  abbrev pub Outcome : RedisLock → ℕ → Bool → RedisLock → World r → Type 0
  Outcome lock deadline true lock' w =
      (lock' ≡ record lock { acquired = true })
      × ((u : ℕ)
          → w.server_now ≤ u
          → u < w.server_now + lock.ttl_ms
          → get w.server u lock.key ≡ some lock.token)
  Outcome lock deadline false lock' w =
      (lock' ≡ lock)
      × ((v : Text) × (get w.server w.server_now lock.key ≡ some v))
      × ((lock.wait_ms ≡ 0) ⊎ (deadline ≤ w.loop_now))

  attempt_free :
      (lock : RedisLock) (w : World r)
      → get w.server w.server_now lock.key ≡ none
      → ((attempt r lock w).0 ≡ true)
        × Outcome lock 0 true (record lock { acquired = true }) (attempt r lock w).1
  unfolding attempt
  attempt_free lock w free =
      rw (r.set_nx_absent w.server w.server_now lock.key lock.token lock.ttl_ms free) (
        refl,
        (
          refl,
          λ u later before.
              rw (r.get_set w.server w.server_now lock.key lock.token lock.ttl_ms u later)
                (ground arith),
        ),
      )

  attempt_taken :
      (lock : RedisLock) (w : World r) (v : Text)
      → get w.server w.server_now lock.key ≡ some v
      → attempt r lock w ≡ (false, w)
  unfolding attempt
  attempt_taken lock w v taken =
      rw (r.set_nx_present w.server w.server_now lock.key lock.token lock.ttl_ms v taken)

  pub Returned : RedisLock → ℕ → Option (Bool × RedisLock × World r) → Type 0
  Returned lock deadline result =
      (ok : Bool) × (lock' : RedisLock) × (w : World r) × (result ≡ some (ok, lock', w))
      × Outcome lock deadline ok lock' w

  acquire_loop-Returned :
      Sleeps
      → (fuel : ℕ) (lock : RedisLock) (deadline : ℕ) (b : Backoff) (w : World r) → IsLong b
      → deadline < w.loop_now + fuel
      → 0 < fuel
      → Returned lock deadline (acquire_loop r sleep fuel lock deadline b w)
  unfolding acquire_loop Returned
  acquire_loop-Returned sleeps zero lock deadline b w long enough some_fuel = elim some_fuel [ ]
  acquire_loop-Returned sleeps (suc fuel) lock deadline b w long enough some_fuel =
      elim (Option-cases (get w.server w.server_now lock.key)) [
        | inl free ↦
            let a = attempt_free lock w free in
            (
              true,
              record lock { acquired = true },
              (attempt r lock w).1,
              rw (a.0, acquire_loop),
              a.1,
            )
        | inr (v, taken) ↦ elim (Bool-cases (lock.wait_ms == 0 || leb deadline w.loop_now)) [
          | inl over ↦ (
            false,
            lock,
            w,
            rw (attempt_taken lock w v taken, over),
            (refl, (v, taken), ground arith),
          )
          | inr wait ↦
              let passed =
                advance _ (2 ^ b.halvings) b.units (pow_two_pos b.halvings) long
                  (sleeps.elapsed b w) in
              let early : w.loop_now < deadline = ground arith in
              rw (attempt_taken lock w v taken, wait)
                (acquire_loop-Returned sleeps fuel lock deadline (longer b) (sleep b w)
                  (longer-IsLong b long) (omega (arith, passed, early)) (omega (arith, early)))
        ]
      ]

  -- With a retry interval of a millisecond or more, `acquire` returns after at most one attempt
  -- more than `wait_ms`: either it has the lock, its flag is set, and nobody else can set the key
  -- for the time to live; or it has not, the lock object is as it was, another value stands in the
  -- key at that moment, and the lock does not wait or the waiting time is over.
  pub acquire-Returned :
      (lock : RedisLock) (w : World r) (fuel : ℕ)
      → Sleeps
      → 1 ≤ lock.retry_ms
      → lock.wait_ms < fuel
      → (ok : Bool) × (lock' : RedisLock) × (w' : World r) × (acquire r sleep fuel lock w
          ≡ some (ok, lock', w'))
        × Outcome lock (w.loop_now + lock.wait_ms) ok lock' w'
  unfolding acquire Returned first_backoff
  acquire-Returned lock w fuel sleeps retry enough =
      acquire_loop-Returned sleeps fuel lock (w.loop_now + lock.wait_ms)
        (first_backoff lock.retry_ms) w (omega arith) (omega arith) (omega arith)
