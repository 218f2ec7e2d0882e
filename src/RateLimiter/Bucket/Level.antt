-- ===== src/RateLimiter/Bucket/Level.antt =====
-- The level of a bucket over time, and rounding up.
use redis_project.Base.{
  ℕ, suc, ◌+◌, ◌-◌, ◌*◌, ◌≤◌, ◌<◌, ◌≡◌, ◌↔◌, ◌⊎◌, refl, ap, ◌∙◌, inl, inr, true, false, Option,
  none, some, Text, leb, Bool-cases, arith,
}
use native.Mathlib.Nat.{div-lt_iff_lt-mul, add-mul, mul-le-mul_right, zero-mul}
use redis_project.Base.Int.{pos}
use redis_project.RateLimiter.Bucket.{
  TokenBucketLimiter, ceil_div, bucket_ttl, refilled, spend, token_bucket_lua, check,
}
use redis_project.Redis.Buckets.{BucketServer}

-- Rounding up is the least number of steps that covers the amount.
pub ceil_div-le : (a b n : ℕ) → 0 < b → (ceil_div a b ≤ n) ↔ (a ≤ n * b)
unfolding ceil_div
ceil_div-le a b n h =
    let e = div-lt_iff_lt-mul {k = b} {x = a + (b - 1)} {y = suc n} h in
    let m : suc n * b ≡ n * b + b = grind arith in
    (λ q. let k = e.0 (omega arith) in omega arith, λ q. let k = e.1 (omega arith) in omega arith)

module _ (l : TokenBucketLimiter) where
  open l use {capacity, rate}

  pub refilled_cap : (now : ℕ) (o : Option (ℕ × ℕ)) → refilled l now o ≤ capacity * 1000
  unfolding refilled
  refilled_cap now none = omega arith
  refilled_cap now (some (tokens, ts)) = omega arith

  -- In some time a bucket gains what flows in, at most.
  pub refilled_later :
      (now more : ℕ) (o : Option (ℕ × ℕ))
      → refilled l (now + more) o ≤ refilled l now o + more * rate
  unfolding refilled
  refilled_later now more none = omega arith
  refilled_later now more (some (tokens, ts)) =
      let flows =
        mul-le-mul_right {m = now + more - ts} {n = (now - ts) + more} rate (omega arith) in
      let parts = add-mul (now - ts) more rate in omega arith

  -- A bucket that has not been touched for its time to live is full, so that nothing is lost or won
  -- when its key runs out.
  pub refilled_full :
      (now tokens ts : ℕ)
      → 0 < rate
      → ts + bucket_ttl l ≤ now
      → refilled l now (some (tokens, ts)) ≡ capacity * 1000
  unfolding refilled bucket_ttl
  refilled_full now tokens ts flow h =
      let enough = (ceil_div-le (capacity * 1000) rate (now - ts) flow).0 (omega arith) in
      omega arith

  pub refilled_now :
      (now tokens : ℕ) → tokens ≤ capacity * 1000 → refilled l now (some (tokens, now)) ≡ tokens
  unfolding refilled
  refilled_now now tokens h =
      let e : now - now ≡ 0 = omega arith in
      let z : (now - now) * rate ≡ 0 = rw e (zero-mul rate) in omega arith

  pub spend_cases :
      (tokens cost : ℕ)
      → let (reply, left) = spend l tokens cost in
        ((cost * 1000 ≤ tokens) × (reply.allowed ≡ true) × (left ≡ tokens - cost * 1000))
        ⊎ ((tokens < cost * 1000)
            × (reply.allowed ≡ false)
            × (left ≡ tokens)
            × (reply.retry_after_ms ≡ ceil_div (cost * 1000 - tokens) rate))
  unfolding spend
  spend_cases tokens cost = elim (Bool-cases (leb (cost * 1000) tokens)) [
    | inl enough ↦ rw enough (inl (ground arith, refl, refl))
    | inr short ↦ rw short (inr (ground arith, refl, refl, refl))
  ]

  module _ (b : BucketServer) (s : b.Server) (key : Text) (now cost : ℕ) where
    -- What a call finds, answers and leaves.
    pub check_cases :
        let level = refilled l now (b.hmget s key) in
        let (r, s') = check b l s key now cost in
        ((cost * 1000 ≤ level)
          × (r.allowed ≡ true)
          × (b.hmget s' key ≡ some (level - cost * 1000, now)))
        ⊎ ((level < cost * 1000)
            × (r.allowed ≡ false)
            × (b.hmget s' key ≡ some (level, now))
            × (r.retry_after_ms ≡ pos (ceil_div (cost * 1000 - level) rate)))
    unfolding check token_bucket_lua
    check_cases =
        let level = refilled l now (b.hmget s key) in
        let stored = λ (tokens : ℕ).
          b.hmget_pexpire (b.hmset s key tokens now) key (bucket_ttl l) key
          ∙ b.hmget_hmset s key tokens now in
        elim (spend_cases level cost) [
          | inl (enough, allowed, left) ↦
              inl (enough, allowed, stored _ ∙ ap (λ x. some (x, now)) left)
          | inr (short, refused, left, wait) ↦
              inr (short, refused, stored _ ∙ ap (λ x. some (x, now)) left, ap pos wait)
        ]
