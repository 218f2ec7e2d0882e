-- ===== src/Tests/RateLimiter.antt =====
-- The limiter on the sample server: two calls in a window of a second.
use redis_project.Base.{
  ℕ, ◌+◌, ◌≤◌, ◌<◌, ◌≡◌, refl, Bool, true, false, some, [], ◌∷◌, Text, codes, text_eq, count, arith,
  leb,
}
use redis_project.Base.Int.{pos}
use redis_project.RateLimiter.{LimitResult, SlidingWindowLimiter, sliding_window, check}
use redis_project.RateLimiter.Window.{Run, start, call, in_window, rate_bound}
use redis_project.RateLimiter.Retry.{retry_exact}
use redis_project.Tests.Zsets.{Zsets, no_zsets, sample}

abbrev limiter : SlidingWindowLimiter
limiter = record { window_ms = 1000; max = 2 }

abbrev key : Text
key = codes "rl:x"

program : Unit {0}
unfolding check text_eq
program = tt

-- Calls at 100 and 600 ms are allowed, one at 900 is not.
abbrev after_one : Zsets
unfolding check text_eq
after_one = (check sample limiter false no_zsets key 100 (codes "a")).1

abbrev after_two : Zsets
unfolding check text_eq
after_two = (check sample limiter true after_one key 600 (codes "b")).1

third_refused :
    (check sample limiter true after_two key 900 (codes "c")).0
    ≡ some (record {
      allowed = false;
      remaining = 0;
      retry_after_ms = pos 200;
      algorithm = sliding_window;
    })
unfolding after_two after_one program
third_refused = refl

run : Run sample limiter key after_two (600 ∷ 100 ∷ []) 600
unfolding after_two after_one program
run =
    call true 600 (codes "b")
      (call false 100 (codes "a") (start no_zsets 0 refl) (omega arith) refl) (omega arith) refl

rate_bound_example : count (in_window 1000 900) (600 ∷ 100 ∷ []) ≤ 2
rate_bound_example = rate_bound sample limiter key (omega arith) run 900

retry_exact_example :
    (wait : ℕ) × (pos 200 ≡ pos wait)
    × (0 < wait)
    × ((s' : Zsets)
        → sample.rows s' key
          ≡ sample.rows (check sample limiter true after_two key 900 (codes "c")).1 key
        → (later : ℕ) → 900 ≤ later
        → (cached' : Bool) (member' : Text)
        → (r' : LimitResult) × ((check sample limiter cached' s' key later member').0 ≡ some r')
          × (r'.allowed ≡ leb (900 + wait) later))
retry_exact_example =
    retry_exact sample limiter key 900 true (codes "c")
      (record {
        allowed = false;
        remaining = 0;
        retry_after_ms = pos 200;
        algorithm = sliding_window;
      })
      (omega arith) (omega arith) run third_refused refl
