-- ===== src/Tests/Middleware.antt =====
-- A client that writes twice in a minute where one write is allowed.
use redis_project.Base.{
  ℕ, ◌+◌, ◌/◌, ◌≤◌, ◌<◌, ◌≡◌, refl, Bool, true, false, not, Option, none, some, [], ◌∷◌, Text,
  codes, text_eq, leb, arith,
}
use Prim.Native.Nat.{max}
use redis_project.Middleware.{
  Request, Limits, is_counted, bucket_of, limiter_of, limit_key, dispatch,
}
use redis_project.Middleware.RetryAfter.{is_limited, dispatch_lem}
use redis_project.Keys
use redis_project.RateLimiter.{check, new_limiter}
use redis_project.RateLimiter.Window.{Run, start, call}
use redis_project.Tests.Zsets.{Zsets, no_zsets, sample}

abbrev request : Request
request = record {
  path = codes "/x";
  method = codes "POST";
  authorization = some (codes "Bearer t");
  forwarded_for = none;
  client_host = none;
}

abbrev settings : Limits
settings = record { rate_limit_write_per_minute = 1; rate_limit_default_per_minute = 2 }

abbrev subject : Text → Option Text
subject token = none

program : Unit {0}
unfolding dispatch is_counted bucket_of limiter_of limit_key text_eq check new_limiter
    Keys.rate_limit Keys.lower
program = tt

-- The first write, at 100 ms.
abbrev after_one : Zsets
unfolding program
after_one =
    (check sample (limiter_of settings request) false no_zsets (limit_key subject request) 100
      (codes "a")).1

run : Run sample (limiter_of settings request) (limit_key subject request) after_one (100 ∷ []) 100
unfolding after_one program
run = call false 100 (codes "a") (start no_zsets 0 refl) (omega arith) refl

-- The second, at 58600 ms, has to wait 1500 ms, and is told to wait a second.
dispatch_lem_example :
    (wait : ℕ) × (0 < wait)
    × (1 ≡ max 1 (wait / 1000))
    × ((s' : Zsets)
        → sample.rows s' (limit_key subject request)
          ≡ sample.rows
              (dispatch subject settings sample request true true after_one 58600 (codes "b")).1
              (limit_key subject request)
        → (later : ℕ) → 58600 ≤ later
        → (cached' : Bool) (member' : Text)
        → is_limited (dispatch subject settings sample request true cached' s' later member').0
          ≡ not (leb (58600 + wait) later))
unfolding after_one program
dispatch_lem_example =
    dispatch_lem subject settings sample request 58600 1 true (codes "b") (omega arith)
      (omega arith) refl run refl
