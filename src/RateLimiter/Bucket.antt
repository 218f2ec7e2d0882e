-- ===== src/RateLimiter/Bucket.antt =====
-- The token bucket of app/redis_layer/rate_limiter.py. Times are milliseconds. The script computes
-- with doubles. Here the rate is a whole number of tokens a second, and tokens are counted in exact
-- thousandths: rounding, which may move a decision or a time to wait by a millisecond, is left out.
use redis_project.Base.{
  ℕ, ◌+◌, ◌-◌, ◌*◌, ◌/◌, Bool, true, false, Option, none, some, Text, leb, if◌then◌else◌,
}
use Prim.Native.Nat.{min}
use mathlib.Core.Option
use redis_project.Base.Int.{pos}
use redis_project.RateLimiter.{LimitResult, token_bucket}
use redis_project.Redis.Buckets.{BucketServer}
pub mod Level
pub mod Spent
pub mod Refill

-- `math.ceil(a / b)`, for a positive `b`.
unfoldable pub ceil_div : ℕ → ℕ → ℕ
ceil_div a b = (a + (b - 1)) / b

pub record TokenBucketLimiter : Type 0 where
  pub capacity : ℕ
  pub rate : ℕ

-- The time to live of a bucket: until it is full, and a second.
unfoldable pub bucket_ttl : TokenBucketLimiter → ℕ
unfolding ceil_div
bucket_ttl l = ceil_div (l.capacity * 1000) l.rate + 1000

-- The three numbers that the script returns. Redis makes a whole number of each, so of `tokens`
-- only the whole tokens come back.
pub record BucketReply : Type 0 where
  pub allowed : Bool
  pub tokens : ℕ
  pub retry_after_ms : ℕ

-- The tokens of a bucket in thousandths, unrounded, refilled up to its capacity; a time before the last one adds nothing.
unfoldable pub refilled : TokenBucketLimiter → ℕ → Option (ℕ × ℕ) → ℕ
refilled l now none = min (l.capacity * 1000) (l.capacity * 1000 + (now - now) * l.rate)
refilled l now (some (tokens, ts)) = min (l.capacity * 1000) (tokens + (now - ts) * l.rate)

-- What the script answers, and the tokens that it stores, without the rounding of doubles.
unfoldable pub spend : TokenBucketLimiter → ℕ → ℕ → BucketReply × ℕ
unfolding ceil_div
spend l tokens cost =
    if leb (cost * 1000) tokens
    then (
      record { allowed = true; tokens = (tokens - cost * 1000) / 1000; retry_after_ms = 0 },
      tokens - cost * 1000,
    )
    else (
      record {
        allowed = false;
        tokens = tokens / 1000;
        retry_after_ms = ceil_div (cost * 1000 - tokens) l.rate;
      },
      tokens,
    )

module _ (b : BucketServer) where
  open b use {Server, hmget, hmset, pexpire}

  -- `_TOKEN_BUCKET_LUA`
  unfoldable pub token_bucket_lua :
      TokenBucketLimiter → Server → Text → ℕ → ℕ → BucketReply × Server
  unfolding refilled spend
  token_bucket_lua l s key now cost =
      let (reply, tokens) = spend l (refilled l now (hmget s key)) cost in
      (reply, pexpire (hmset s key tokens now) key (bucket_ttl l))

  -- `check`. Where the script is not cached, EVALSHA fails before it runs anything, and the script
  -- is sent whole.
  unfoldable pub check : TokenBucketLimiter → Server → Text → ℕ → ℕ → LimitResult × Server
  unfolding token_bucket_lua
  check l s key now cost =
      let (reply, s') = token_bucket_lua l s key now cost in
      (
        record {
          allowed = reply.allowed;
          remaining = reply.tokens;
          retry_after_ms = pos reply.retry_after_ms;
          algorithm = token_bucket;
        },
        s',
      )
