-- ===== src/Middleware.antt =====
-- `RateLimitMiddleware` of app/api/middleware.py: which requests are counted, under which key, and
-- what a request over the limit is answered.
use redis_project.Base.{
  ℕ, zero, suc, ◌+◌, ◌*◌, ◌/◌, Bool, true, false, not, ◌||◌, ◌&&◌, Option, none, some, List, [],
  ◌∷◌, ◌++◌, Text, codes, text_eq, ◌==◌, if◌then◌else◌, length, take, drop,
}
use Prim.Native.Nat.{max}
use mathlib.Core.Option
use redis_project.Base.Int.{ℤ, pos, negsuc}
use redis_project.Keys
use redis_project.RateLimiter.{LimitResult, SlidingWindowLimiter, new_limiter, check}
use redis_project.Redis.Zsets.{ZsetServer}
pub mod RetryAfter

-- What the middleware reads of a request.
pub record Request : Type 0 where
  pub path : Text
  pub method : Text
  pub authorization : Option Text
  pub forwarded_for : Option Text
  pub client_host : Option Text

pub data Response : Type 0 where
  -- `call_next`, without and with the two headers: what remains, and the bucket
  passed : Response
  passed_with : ℕ → Text → Response
  -- status 429 with `Retry-After`
  rate_limited : ℕ → Response

unfoldable pub is_one_of : Text → List Text → Bool
is_one_of s [] = false
is_one_of s (t ∷ texts) = text_eq s t || is_one_of s texts

unfoldable pub starts_with : Text → Text → Bool
starts_with prefix s = text_eq (take (length prefix) s) prefix

-- `_WRITE_METHODS`
unfoldable pub write_methods : List Text
write_methods = codes "POST" ∷ codes "PUT" ∷ codes "PATCH" ∷ codes "DELETE" ∷ []

-- `_EXEMPT_PATHS`
unfoldable pub exempt_paths : List Text
exempt_paths =
    codes "/health" ∷ codes "/metrics" ∷ codes "/docs" ∷ codes "/redoc" ∷ codes "/openapi.json" ∷ []

-- `str.strip` on blanks.
unfoldable pub lstrip : Text → Text
lstrip [] = []
lstrip (c ∷ s) = let rest = lstrip s in if c == 32 then rest else c ∷ s

unfoldable pub rstrip : Text → Text
rstrip [] = []
rstrip (c ∷ s) = let rest = rstrip s in if c == 32 && length rest == 0 then [] else c ∷ rest

unfoldable pub strip : Text → Text
unfolding lstrip rstrip
strip s = rstrip (lstrip s)

-- `s.split(",")[0]`
unfoldable pub before_comma : Text → Text
before_comma [] = []
before_comma (c ∷ s) = let rest = before_comma s in if c == 44 then [] else c ∷ rest

unfoldable pub is_counted : Request → Bool
unfolding is_one_of starts_with exempt_paths
is_counted request = not (
    text_eq request.method (codes "OPTIONS")
    || (is_one_of request.path exempt_paths || starts_with (codes "/ws/") request.path))

unfoldable pub bucket_of : Request → Text
unfolding is_one_of write_methods
bucket_of request = if is_one_of request.method write_methods then codes "write" else codes "read"

-- The two settings that the middleware reads.
pub record Limits : Type 0 where
  pub rate_limit_write_per_minute : ℕ
  pub rate_limit_default_per_minute : ℕ

unfoldable pub limit_of : Limits → Request → ℕ
unfolding is_one_of write_methods
limit_of settings request =
    if is_one_of request.method write_methods
    then settings.rate_limit_write_per_minute
    else settings.rate_limit_default_per_minute

unfoldable pub limiter_of : Limits → Request → SlidingWindowLimiter
unfolding limit_of
limiter_of settings request = new_limiter 60 (limit_of settings request)

-- `max(1, retry_after_ms // 1000)`
unfoldable pub retry_seconds : ℤ → ℕ
retry_seconds (pos n) = max 1 (n / 1000)
retry_seconds (negsuc n) = 1

-- What follows the limiter's check; `none` is a RedisError, on which the request passes.
unfoldable pub answer : Text → Option LimitResult → Response
unfolding retry_seconds
answer bucket none = passed
answer bucket (some r) =
    if not r.allowed
    then rate_limited (retry_seconds r.retry_after_ms)
    else passed_with r.remaining bucket

-- The subject of a token, or `none` where `decode_token` raises.
module _ (subject : Text → Option Text) where
  unfoldable pub bearer_identity : Text → Text
  bearer_identity token = elim (subject token) [
    | none ↦ codes "token:" ++ take 16 token
    | some sub ↦ codes "user:" ++ sub
  ]

  -- `_resolve_identity`; the token is what follows the first blank.
  unfoldable pub resolve_identity : Request → Text
  unfolding bearer_identity starts_with strip before_comma
  resolve_identity request =
      let auth = Option.get_or request.authorization [] in
      let fwd = Option.get_or request.forwarded_for [] in
      if starts_with (codes "bearer ") (Keys.lower auth)
      then bearer_identity (strip (drop 7 auth))
      else codes "ip:"
        ++ (if length fwd == 0
            then Option.get_or request.client_host (codes "unknown")
            else strip (before_comma fwd))

  unfoldable pub limit_key : Request → Text
  unfolding resolve_identity
  limit_key request = Keys.rate_limit (bucket_of request) (resolve_identity request)

  module _ (settings : Limits) (z : ZsetServer) where
    -- `dispatch`. Where the server cannot be reached, the check is a RedisError and changes nothing.
    unfoldable pub dispatch : Request → Bool → Bool → z.Server → ℕ → Text → Response × z.Server
    unfolding answer
    dispatch request reachable cached s now member =
        if is_counted request && reachable
        then (let (result, s') =
              check z (limiter_of settings request) cached s (limit_key request) now member in
            (answer (bucket_of request) result, s'))
        else (passed, s)
