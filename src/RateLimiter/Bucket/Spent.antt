-- ===== src/RateLimiter/Bucket/Spent.antt =====
-- How much a bucket lets through.
use redis_project.Base.{
  ℕ, ◌+◌, ◌-◌, ◌*◌, ◌≤◌, ◌<◌, ◌≡◌, ap, ◌∙◌, inl, inr, some, Text, if◌then◌else◌, arith,
}
use native.Mathlib.Nat.{add-mul}
use redis_project.RateLimiter.Bucket.{TokenBucketLimiter, bucket_ttl, refilled, check}
use redis_project.RateLimiter.Bucket.Level.{
  refilled_cap, refilled_later, refilled_full, refilled_now, check_cases,
}
use redis_project.Redis.Buckets.{BucketServer}

module _ (b : BucketServer) (l : TokenBucketLimiter) (key : Text) where
  open b use {Server, hmget}
  open l use {capacity, rate}

  -- The life of a bucket from some time on: the server, the cost that has been let through, and the
  -- latest time. Times do not fall. The key runs out only after its time to live.
  pub data Run (t0 : ℕ) : Server → ℕ → ℕ → Type 0 where
    start : (s : Server) → Run t0 s 0 t0
    call :
        {s : Server} {spent t : ℕ} (now cost : ℕ)
        → Run t0 s spent t
        → t ≤ now
        → Run t0
            (check b l s key now cost).1
            (if (check b l s key now cost).0.allowed then spent + cost else spent)
            now
    expire :
        {s : Server} {spent t : ℕ} (now tokens ts : ℕ)
        → Run t0 s spent t
        → t ≤ now
        → hmget s key ≡ some (tokens, ts)
        → ts + bucket_ttl l ≤ now
        → Run t0 (b.vanish s key) spent now
    elsewhere :
        {s s' : Server} {spent t : ℕ}
        → Run t0 s spent t
        → hmget s' key ≡ hmget s key
        → Run t0 s' spent t

  -- The level of the key's bucket.
  abbrev level : Server → ℕ → ℕ
  level s now = refilled l now (hmget s key)

  -- What has been let through and what is left is covered by the capacity and the inflow.
  IsFilled : ℕ → Server → ℕ → ℕ → Type 0
  IsFilled t0 s spent t = (t0 ≤ t) × (spent * 1000 + level s t ≤ capacity * 1000 + (t - t0) * rate)

  later-IsFilled :
      (t0 t now : ℕ) (s : Server) (spent : ℕ)
      → t ≤ now
      → IsFilled t0 s spent t
      → IsFilled t0 s spent now
  unfolding IsFilled
  later-IsFilled t0 t now s spent h (begun, filled) =
      let e : t + (now - t) ≡ now = omega arith in
      let gain = refilled_later l t (now - t) (hmget s key) in
      let gain' : level s now ≤ level s t + (now - t) * rate = rw e at gain in
      let parts = add-mul (t - t0) (now - t) rate in
      let span : (t - t0) + (now - t) ≡ now - t0 = omega arith in
      let parts' : (now - t0) * rate ≡ (t - t0) * rate + (now - t) * rate = rw span at parts in
      (omega arith, omega arith)

  check-IsFilled :
      (t0 now cost : ℕ) (s : Server) (spent : ℕ)
      → IsFilled t0 s spent now
      → let (r, s') = check b l s key now cost in
        IsFilled t0 s' (if r.allowed then spent + cost else spent) now
  unfolding IsFilled
  check-IsFilled t0 now cost s spent (begun, filled) =
      let capped = refilled_cap l now (hmget s key) in
      elim (check_cases l b s key now cost) [
        | inl (enough, allowed, stored) ↦
            let after = ap (refilled l now) stored ∙ refilled_now l now _ (omega arith) in
            rw allowed (begun, omega arith)
        | inr (short, refused, stored, wait) ↦
            let after = ap (refilled l now) stored ∙ refilled_now l now _ capped in
            rw refused (begun, omega arith)
      ]

  Run-IsFilled :
      {t0 : ℕ} {s : Server} {spent t : ℕ} → 0 < rate → Run t0 s spent t → IsFilled t0 s spent t
  unfolding IsFilled
  Run-IsFilled flow (start s) = (omega arith, omega (arith, refilled_cap l _ (hmget s key)))
  Run-IsFilled flow (call {s} {spent} {t} now cost r h) =
      check-IsFilled _ now cost s spent (later-IsFilled _ t now s spent h (Run-IsFilled flow r))
  Run-IsFilled flow (expire {s} {spent} {t} now tokens ts r h held over) =
      let before = later-IsFilled _ t now s spent h (Run-IsFilled flow r) in
      let full = ap (refilled l now) held ∙ refilled_full l now tokens ts flow over in
      (before.0, omega (arith, refilled_cap l now (hmget (b.vanish s key) key)))
  Run-IsFilled {t0} flow (elsewhere {s} {s'} {spent} {t} r same) =
      let before = Run-IsFilled flow r in
      let level_same = ap (refilled l t) same in (before.0, omega arith)

  -- Over any time, from whatever state of the bucket, the cost of the calls that are let through is at
  -- most the capacity and what flows in during that time, also where the key runs out in between, and
  -- whatever happens to other keys. Costs count in thousandths, times in milliseconds.
  pub spent_bound :
      {t0 : ℕ} {s : Server} {spent t : ℕ}
      → 0 < rate
      → Run t0 s spent t
      → spent * 1000 ≤ capacity * 1000 + (t - t0) * rate
  unfolding IsFilled
  spent_bound flow r = omega (arith, (Run-IsFilled flow r).1)
