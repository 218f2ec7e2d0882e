-- ===== src/RateLimiter/Bucket/Refill.antt =====
-- What a call is told that costs more than a bucket can hold.
use redis_project.Base.{
  ℕ, ◌-◌, ◌*◌, ◌≤◌, ◌<◌, ◌≡◌, inl, inr, true, false, Text, leb, Bool-cases, arith,
}
use native.Mathlib.Nat.{zero-mul}
use redis_project.Base.Int.{pos}
use redis_project.RateLimiter.Bucket.{TokenBucketLimiter, ceil_div, refilled, check}
use redis_project.RateLimiter.Bucket.Level.{ceil_div-le, refilled_cap, check_cases}
use redis_project.Redis.Buckets.{BucketServer}

leb→le : (a b : ℕ) → leb a b ≡ true → a ≤ b
leb→le a b h = ground arith

leb→lt : (a b : ℕ) → leb a b ≡ false → b < a
leb→lt a b h = ground arith

ceil_div-pos : (a b : ℕ) → 0 < a → 0 < b → 0 < ceil_div a b
ceil_div-pos a b some_left flow = elim (Bool-cases (leb (ceil_div a b) 0)) [
  | inl none_left ↦
      let k = (ceil_div-le a b 0 flow).0 (leb→le (ceil_div a b) 0 none_left) in
      absurd (omega (arith, zero-mul b))
  | inr more ↦ leb→lt (ceil_div a b) 0 more
]

module _ (b : BucketServer) (l : TokenBucketLimiter) (key : Text) where
  open b use {Server, hmget}
  open l use {capacity, rate}

  -- With a positive rate, a call whose cost the bucket cannot hold is refused at any time and in any
  -- state of the bucket, and yet it is told a positive number of milliseconds to wait.
  pub refill_never :
      (s : Server) (now cost : ℕ)
      → 0 < rate
      → capacity < cost
      → ((check b l s key now cost).0.allowed ≡ false)
        × ((wait : ℕ) × ((check b l s key now cost).0.retry_after_ms ≡ pos wait) × (0 < wait))
  refill_never s now cost flow h =
      let capped = refilled_cap l now (hmget s key) in
      elim (check_cases l b s key now cost) [
        | inl (enough, _, _) ↦ absurd (omega arith)
        | inr (short, refused, _, told) ↦ (
          refused,
          (
            _,
            told,
            ceil_div-pos (cost * 1000 - refilled l now (hmget s key)) rate (omega arith) flow,
          ),
        )
      ]
