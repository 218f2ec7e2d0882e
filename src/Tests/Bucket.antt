-- ===== src/Tests/Bucket.antt =====
-- A bucket of two tokens that gains one a second.
use redis_project.Base.{
  ℕ, ◌+◌, ◌-◌, ◌*◌, ◌≤◌, ◌<◌, ◌≡◌, refl, false, Option, none, some, Text, codes, text_eq, arith,
}
use redis_project.Base.Int.{pos}
use redis_project.RateLimiter.Bucket.{TokenBucketLimiter, check}
use redis_project.RateLimiter.Bucket.Refill.{refill_never}
use redis_project.RateLimiter.Bucket.Spent.{Run, start, call, spent_bound}
use redis_project.Redis.Buckets.{BucketServer}
use redis_project.Tests.Expiring.{put, put_self, put_other}

abbrev Buckets : Type 0
Buckets = Text → Option (ℕ × ℕ)

abbrev no_buckets : Buckets
no_buckets k = none

abbrev sample : BucketServer
sample = record {
  Server = Buckets;
  hmget = λ s k. s k;
  hmset = λ s k x ts. put s k (some (x, ts));
  pexpire = λ s k ttl. s;
  vanish = λ s k. put s k none;
  hmget_hmset = λ s k x ts. put_self s k (some (x, ts));
  hmset_other = λ s k x ts j h. put_other s k (some (x, ts)) j h;
  hmget_pexpire = λ s k ttl j. refl;
  hmget_vanish = λ s k. put_self s k none;
}

abbrev limiter : TokenBucketLimiter
limiter = record { capacity = 2; rate = 1 }

abbrev key : Text
key = codes "b"

-- Both tokens are spent at 5000 ms, and a call at 5600 ms is refused.
abbrev spent : Buckets
unfolding check text_eq
spent = (check sample limiter no_buckets key 5000 2).1

refused : (check sample limiter spent key 5600 1).0.allowed ≡ false
unfolding spent check text_eq
refused = refl

told : (check sample limiter spent key 5600 1).0.retry_after_ms ≡ pos 400
unfolding spent check text_eq
told = refl

run : Run sample limiter key 5000 (check sample limiter spent key 5600 1).1 2 5600
unfolding spent check text_eq
run = call 5600 1 (call 5000 2 (start no_buckets) (omega arith)) (omega arith)

spent_bound_example : 2 * 1000 ≤ 2 * 1000 + (5600 - 5000) * 1
spent_bound_example = spent_bound sample limiter key (omega arith) run

refill_never_example :
    ((check sample limiter spent key 5600 3).0.allowed ≡ false)
    × ((wait : ℕ) × ((check sample limiter spent key 5600 3).0.retry_after_ms ≡ pos wait)
        × (0 < wait))
refill_never_example = refill_never sample limiter key spent 5600 3 (omega arith) (omega arith)
