-- ===== src/RateLimiter/Retry.antt =====
-- The time that a refused call is told to wait.
use redis_project.Base.{
  ℕ, suc, ◌+◌, ◌-◌, ◌≤◌, ◌<◌, ◌≡◌, refl, ap, ◌∙◌, inl, inr, Bool, true, false, some, List, [], ◌∷◌,
  Text, text_eq, Bool-cases, ltb→lt, arith, leb, ltb, length, keep, count-all, count-le-length,
  length-keep, not,
}
use mathlib.Core.Path.{subst}
use redis_project.Base.Int.{pos, sub_ℕ}
use redis_project.Redis.Zsets.{Row, ZsetServer, AllRows, Ascending, without}
use redis_project.RateLimiter.{
  LimitResult, SlidingWindowLimiter, sliding_window, too_many, limit_result, check,
}
use redis_project.RateLimiter.Script.{live, found, check_full, check_free}
use redis_project.RateLimiter.Window.{Run, call, start, expire, elsewhere}

length-keep-le {ℓ} : {A : Type ℓ} (p : A → Bool) (xs : List A) → length (keep p xs) ≤ length xs
length-keep-le p xs = omega (arith, length-keep p xs, count-le-length p xs)

AllRows-keep :
    (bound : ℕ) (p : Row → Bool) (xs : List Row)
    → AllRows (λ r. bound ≤ r.1) xs
    → AllRows (λ r. bound ≤ r.1) (keep p xs)
AllRows-keep bound p [] h = tt
AllRows-keep bound p (x ∷ xs) h = ground (arith, AllRows-keep bound p xs h.1)

keep-Ascending : (p : Row → Bool) (xs : List Row) → Ascending xs → Ascending (keep p xs)
keep-Ascending p [] h = tt
keep-Ascending p (x ∷ xs) h = ground (arith, keep-Ascending p xs h.1, AllRows-keep x.1 p xs h.0)

keep_head_passes :
    (p : Row → Bool) (xs : List Row) (y : Row) (ys : List Row) → keep p xs ≡ y ∷ ys → p y ≡ true
keep_head_passes p [] y ys e = cc
keep_head_passes p (x ∷ xs) y ys e = ground (arith, keep_head_passes p xs y ys)

-- Rows that are no older than a live one are live.
keep-live-all :
    (window now oldest : ℕ) (xs : List Row)
    → AllRows (λ r. oldest ≤ r.1) xs
    → now < oldest + window
    → keep (live window now) xs ≡ xs
keep-live-all window now oldest [] h e = refl
keep-live-all window now oldest (x ∷ xs) h e =
    ground (arith, keep-live-all window now oldest xs h.1 e)

keep_later :
    (window now later : ℕ) (xs : List Row)
    → now ≤ later
    → keep (live window later) (keep (live window now) xs) ≡ keep (live window later) xs
keep_later window now later [] e = refl
keep_later window now later (x ∷ xs) e = ground (arith, keep_later window now later xs e)

module _ (z : ZsetServer) (l : SlidingWindowLimiter) (key : Text) where
  open z use {Server, rows}
  open l use {window_ms, max}

  -- The key never holds more than `max` rows.
  pub Run-within :
      {s : Server} {h : List ℕ} {t : ℕ}
      → 0 < window_ms
      → Run z l key s h t
      → length (rows s key) ≤ max
  Run-within w (start s t empty) = rw empty (omega arith)
  Run-within w (call {s} {h} {t} cached now member r e fresh) =
      elim (Bool-cases (ltb (length (found z l s key now)) max)) [
        | inl free ↦
            let c = check_free z l key now member cached s (ground arith) w in
            omega (
              arith,
              count-all (rows (check z l cached s key now member).1 key),
              c.1 (λ _. true),
              count-all (without member (found z l s key now)),
              length-keep-le (λ (r : Row). not (text_eq r.0 member)) (found z l s key now),
              ltb→lt (length (found z l s key now)) max free,
            )
        | inr full ↦
            let c = check_full z l key now member cached s (ground arith) in
            rw c.1 (omega (arith, length-keep-le (live window_ms now) (rows s key), Run-within w r))
      ]
  Run-within w (expire {s} now r e old) = rw (z.rows_vanish s key) (omega arith)
  Run-within w (elsewhere r same) = rw same (Run-within w r)

  -- The result of a refused call.
  turned_away : ℕ → Row → List Row → LimitResult
  turned_away now oldest rest = record {
    allowed = false;
    remaining = max - suc (length rest);
    retry_after_ms = sub_ℕ (window_ms + oldest.1) now;
    algorithm = sliding_window;
  }

  module _ (s : Server) (now : ℕ) (wide : 0 < window_ms) where
    -- The answer to a call at `later` that finds the rows that a refused call at `now` left.
    Answer : (s' : Server) → ℕ → ℕ → Type 0
    Answer s' wait later =
        (cached : Bool) (member : Text)
        → (r : LimitResult) × ((check z l cached s' key later member).0 ≡ some r)
          × (r.allowed ≡ leb (now + wait) later)

    answers :
        (s' : Server) (oldest : Row) (rest : List Row)
        → found z l s key now ≡ oldest ∷ rest
        → suc (length rest) ≡ max
        → rows s' key ≡ found z l s key now
        → (later : ℕ) → now ≤ later
        → Answer s' (window_ms + oldest.1 - now) later
    unfolding Answer limit_result too_many turned_away
    answers s' oldest rest e full same later le cached member =
        elim (Bool-cases (leb (window_ms + oldest.1) later)) [
          | inl over ↦
              let few : length (found z l s' key later) < max =
                rw (same, e) (ground (arith, length-keep-le (live window_ms later) rest)) in
              (_, (check_free z l key later member cached s' few wide).0, ground arith)
          | inr early ↦
              let all : found z l s' key later ≡ oldest ∷ rest =
                ap (keep (live window_ms later)) (same ∙ e)
                ∙ keep-live-all window_ms later oldest.1 (oldest ∷ rest) (omega arith, order.0)
                    (ground arith) in
              (
                turned_away later oldest rest,
                (check_full z l key later member cached s' (rw all (omega arith))).0
                    ∙ ap
                        (λ (xs : List Row).
                          limit_result l (too_many window_ms later (length xs) xs))
                        all,
                ground arith,
              )
        ]
      where
        order : Ascending (oldest ∷ rest)
        order =
            subst Ascending e
              (keep-Ascending (live window_ms now) (rows s key) (z.rows_ascending s key))

        young : ltb now (oldest.1 + window_ms) ≡ true
        young = keep_head_passes (live window_ms now) (rows s key) oldest rest e

    room_allows :
        (cached : Bool) (member : Text) (r : LimitResult)
        → length (found z l s key now) < max
        → (check z l cached s key now member).0 ≡ some r
        → r.allowed ≡ true
    room_allows cached member r few answer =
        cc ((check_free z l key now member cached s few wide).0)

    -- A refused call is told a positive time to wait: if nothing else is done to the key, a call
    -- is allowed exactly when that time is over.
    refused :
        (cached : Bool) (member : Text) (r : LimitResult) (xs : List Row)
        → found z l s key now ≡ xs
        → length (rows s key) ≤ max
        → 0 < max
        → (check z l cached s key now member).0 ≡ some r
        → r.allowed ≡ false
        → (wait : ℕ) × (r.retry_after_ms ≡ pos wait)
          × (0 < wait)
          × ((s' : Server)
              → rows s' key ≡ rows (check z l cached s key now member).1 key
              → (later : ℕ) → now ≤ later
              → Answer s' wait later)
    unfolding limit_result too_many
    refused cached member r [] e within some_room answer turned =
        absurd (cc (room_allows cached member r (rw e some_room) answer))
    refused cached member r (oldest ∷ rest) e within some_room answer turned =
        elim (Bool-cases (ltb (length (found z l s key now)) max)) [
          | inl few ↦ absurd (cc (room_allows cached member r (ltb→lt _ _ few) answer))
          | inr full ↦
              let exact : suc (length rest) ≡ max =
                ground
                  (arith, length-keep-le (live window_ms now) (rows s key), ap {B = ℕ} length e) in
              let c = check_full z l key now member cached s (ground arith) in
              let young : ltb now (oldest.1 + window_ms) ≡ true =
                keep_head_passes (live window_ms now) (rows s key) oldest rest e in
              let result =
                c.0
                ∙ ap (λ (xs : List Row). limit_result l (too_many window_ms now (length xs) xs))
                    e in
              (
                window_ms + oldest.1 - now,
                ground arith,
                ground arith,
                λ s' same. answers s' oldest rest e exact (same ∙ c.1),
              )
        ]

  -- A refused call on a key that has been run by the limiter reports a positive number of
  -- milliseconds. As long as the key's rows stay as the refused call left them, a later call is
  -- answered, and it is allowed exactly if that time has passed.
  pub retry_exact :
      {s : Server} {h : List ℕ} {t : ℕ} (now : ℕ) (cached : Bool) (member : Text) (r : LimitResult)
      → 0 < window_ms
      → 0 < max
      → Run z l key s h t
      → (check z l cached s key now member).0 ≡ some r
      → r.allowed ≡ false
      → (wait : ℕ) × (r.retry_after_ms ≡ pos wait)
        × (0 < wait)
        × ((s' : Server)
            → rows s' key ≡ rows (check z l cached s key now member).1 key
            → (later : ℕ) → now ≤ later
            → (cached' : Bool) (member' : Text)
            → (r' : LimitResult) × ((check z l cached' s' key later member').0 ≡ some r')
              × (r'.allowed ≡ leb (now + wait) later))
  unfolding Answer
  retry_exact {s} now cached member r wide some_room run answer turned =
      refused s now wide cached member r (found z l s key now) refl (Run-within wide run) some_room
        answer turned
