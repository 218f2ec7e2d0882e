-- ===== src/RateLimiter.antt =====
-- The sliding window of app/redis_layer/rate_limiter.py: the Lua script, command by command, and
-- `SlidingWindowLimiter.check` around it. Times are whole milliseconds, far below 2^53, so Lua's
-- numbers are exact.
use redis_project.Base.{
  ℕ, ◌+◌, ◌-◌, ◌*◌, Bool, true, false, Option, none, some, List, [], ◌∷◌, Text, leb, if◌then◌else◌,
}
use redis_project.Base.Int.{ℤ, pos, sub_ℕ}
use redis_project.Redis.Zsets.{Row, ZsetServer}
pub mod Window
pub mod Script
pub mod Retry
pub mod Bucket

pub data Algorithm : Type 0 where
  sliding_window token_bucket : Algorithm

pub record LimitResult : Type 0 where
  pub allowed : Bool
  pub remaining : ℕ
  pub retry_after_ms : ℤ
  pub algorithm : Algorithm

-- The three numbers that the script returns.
pub record Reply : Type 0 where
  pub allowed : Bool
  pub count : ℕ
  pub retry_after : ℤ

pub record SlidingWindowLimiter : Type 0 where
  pub window_ms : ℕ
  pub max : ℕ

unfoldable pub new_limiter : ℕ → ℕ → SlidingWindowLimiter
new_limiter window_seconds max_events = record {
  window_ms = window_seconds * 1000;
  max = max_events;
}

-- `window - (now - tonumber(oldest[2]))`. With no oldest row the arithmetic on `nil` is an error.
unfoldable pub too_many : ℕ → ℕ → ℕ → List Row → Option Reply
too_many window now count [] = none
too_many window now count ((m, oldest) ∷ rows) =
    some (record { allowed = false; count = count; retry_after = sub_ℕ (window + oldest) now })

-- The result of the reply; an error reply of the second call is raised.
unfoldable pub limit_result : SlidingWindowLimiter → Option Reply → Option LimitResult
limit_result l none = none
limit_result l (some r) = some (record {
  allowed = r.allowed;
  remaining = l.max - r.count;
  retry_after_ms = r.retry_after;
  algorithm = sliding_window;
})

module _ (z : ZsetServer) where
  open z use {Server, zcard, zrange, zadd, zremrangebyscore, pexpire}

  -- The script's first command drops the rows that are a window old.
  unfoldable pub prune : Server → Text → ℕ → ℕ → Server
  prune s key window now = zremrangebyscore s key (pos 0) (sub_ℕ now window)

  -- The rest of the script: refuse, or record the event and renew the key's time to live.
  unfoldable pub admit : Server → Text → ℕ → ℕ → ℕ → Text → Option Reply × Server
  unfolding too_many
  admit s key window limit now member =
      let count = zcard s key in
      if leb limit count then (too_many window now count (zrange s key (pos 0) (pos 0)), s) else (
        some (record { allowed = true; count = count + 1; retry_after = pos 0 }),
        pexpire (zadd s key member now) key window,
      )

  -- `_SLIDING_LUA`. What a script has written before an error stays written.
  unfoldable pub sliding_lua : Server → Text → ℕ → ℕ → ℕ → Text → Option Reply × Server
  unfolding prune admit
  sliding_lua s key window limit now member =
      admit (prune s key window now) key window limit now member

  -- EVALSHA answers with an error, and runs nothing, where the server has not cached the script.
  unfoldable pub evalsha : Bool → Server → Text → ℕ → ℕ → ℕ → Text → Option Reply × Server
  unfolding sliding_lua
  evalsha cached s key window limit now member =
      if cached then sliding_lua s key window limit now member else (none, s)

  -- The `except` clause: on an error reply the script is sent whole.
  unfoldable pub retry_whole :
      SlidingWindowLimiter → Text → ℕ → Text → Option Reply × Server → Option Reply × Server
  unfolding sliding_lua
  retry_whole l key now member (some r, s) = (some r, s)
  retry_whole l key now member (none, s) = sliding_lua s key l.window_ms l.max now member

  -- `check`; `none` is the exception that it lets through.
  unfoldable pub check :
      SlidingWindowLimiter → Bool → Server → Text → ℕ → Text → Option LimitResult × Server
  unfolding evalsha limit_result retry_whole
  check l cached s key now member =
      let (reply, s') =
        retry_whole l key now member (evalsha cached s key l.window_ms l.max now member) in
      (limit_result l reply, s')
