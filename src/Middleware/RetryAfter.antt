-- ===== src/Middleware/RetryAfter.antt =====
-- The `Retry-After` of the middleware.
use redis_project.Base.{
  ℕ, ◌+◌, ◌/◌, ◌≤◌, ◌<◌, ◌≡◌, refl, ap, ◌∙◌, inl, inr, Bool, true, false, not, Option, none, some,
  List, Text, leb, Bool-cases, arith,
}
use Prim.Native.Nat.{max}
use redis_project.Middleware.{
  Request, Response, Limits, passed, passed_with, rate_limited, is_counted, bucket_of, limit_of,
  limiter_of, limit_key, retry_seconds, answer, dispatch,
}
use redis_project.RateLimiter.{LimitResult, new_limiter}
use redis_project.RateLimiter.Retry.{retry_exact}
use redis_project.RateLimiter.Window.{Run}
use redis_project.Redis.Zsets.{ZsetServer}

abbrev pub is_limited : Response → Bool
is_limited passed = false
is_limited (passed_with n b) = false
is_limited (rate_limited n) = true

-- A response with status 429 comes from a check that refused.
answer_limited :
    (bucket : Text) (o : Option LimitResult) (seconds : ℕ)
    → answer bucket o ≡ rate_limited seconds
    → (r : LimitResult) × (o ≡ some r)
      × (r.allowed ≡ false)
      × (seconds ≡ retry_seconds r.retry_after_ms)
unfolding answer
answer_limited bucket none seconds e = cc
answer_limited bucket (some r) seconds e = elim (Bool-cases r.allowed) [
  | inl let_in ↦
      let e' : passed_with r.remaining bucket ≡ rate_limited seconds = rw let_in at e in cc
  | inr turned ↦
      let e' : rate_limited (retry_seconds r.retry_after_ms) ≡ rate_limited seconds =
        rw turned at e in
      (r, refl, turned, cc)
]

is_limited-answer :
    (bucket : Text) (r : LimitResult) → is_limited (answer bucket (some r)) ≡ not r.allowed
unfolding answer
is_limited-answer bucket r = elim (Bool-cases r.allowed) [
  | inl let_in ↦ rw let_in refl
  | inr turned ↦ rw turned refl
]

limiter_fits :
    (settings : Limits) (request : Request)
    → 0 < settings.rate_limit_write_per_minute
    → 0 < settings.rate_limit_default_per_minute
    → (0 < (limiter_of settings request).window_ms) × (0 < (limiter_of settings request).max)
unfolding limiter_of limit_of new_limiter
limiter_fits settings request w d = (omega arith, ground arith)

module _ (subject : Text → Option Text) (settings : Limits) (z : ZsetServer)
    (request : Request) where
  open z use {Server, rows}

  -- With both settings positive, a request that is answered with status 429 has a waiting time, of `wait` milliseconds, and the
  -- header says that time in whole seconds, rounded down, but at least 1. Where the rows of the
  -- client's key stay as they are, a request that comes later is answered with 429 again exactly if
  -- it comes before that time is over: so it may be refused although it came when the header said.
  pub dispatch_lem :
      {s : Server} {h : List ℕ} {t : ℕ} (now seconds : ℕ) (cached : Bool) (member : Text)
      → 0 < settings.rate_limit_write_per_minute
      → 0 < settings.rate_limit_default_per_minute
      → is_counted request ≡ true
      → Run z (limiter_of settings request) (limit_key subject request) s h t
      → (dispatch subject settings z request true cached s now member).0 ≡ rate_limited seconds
      → (wait : ℕ) × (0 < wait)
        × (seconds ≡ max 1 (wait / 1000))
        × ((s' : Server)
            → rows s' (limit_key subject request)
              ≡ rows
                  (dispatch subject settings z request true cached s now member).1
                  (limit_key subject request)
            → (later : ℕ) → now ≤ later
            → (cached' : Bool) (member' : Text)
            → is_limited (dispatch subject settings z request true cached' s' later member').0
              ≡ not (leb (now + wait) later))
  unfolding dispatch retry_seconds
  dispatch_lem {s} now seconds cached member w d counts run = rw counts λ e.
      let (r, found, turned, told) = answer_limited (bucket_of request) _ seconds e in
      let (wait, exact, long, again) =
        retry_exact z (limiter_of settings request) (limit_key subject request) now cached member r
          (limiter_fits settings request w d).0 (limiter_fits settings request w d).1 run found
          turned in
      (
        wait,
        long,
        told ∙ ap retry_seconds exact,
        λ s' same later after cached' member'.
            let (r', found', when) = again s' same later after cached' member' in
            rw found' (is_limited-answer (bucket_of request) r' ∙ ap not when),
      )
