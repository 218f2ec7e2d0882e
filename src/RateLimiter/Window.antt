-- ===== src/RateLimiter/Window.antt =====
-- What the sliding window promises: a bound on the calls allowed within any window of time.
use redis_project.Base.{
  ℕ, ◌+◌, ◌≤◌, ◌<◌, ◌≡◌, refl, inl, inr, Bool, ◌&&◌, Option, none, some, List, [], ◌∷◌, Text,
  text_eq, Bool-cases, arith, leb, ltb, if◌then◌else◌, length, count, count-keep, count-keep-le,
  count_mono, keep-not_counted, length-keep,
}
use redis_project.Redis.Zsets.{Row, ZsetServer, without}
use redis_project.RateLimiter.{LimitResult, SlidingWindowLimiter, too_many, limit_result, check}
use redis_project.RateLimiter.Script.{live, found, check_full, check_free}

-- The times of the allowed calls, the latest first, after one more call.
abbrev pub noted : ℕ → List ℕ → Option LimitResult → List ℕ
noted now h none = h
noted now h (some r) = if r.allowed then now ∷ h else h

abbrev pub AllTimes : (ℕ → Type 0) → List ℕ → Type 0
AllTimes P [] = Unit
AllTimes P (a ∷ h) = P a × AllTimes P h

-- The life of one key: the server, the times of the allowed calls, and the latest time. Calls come
-- with times that do not fall and with members that the key does not hold. The key vanishes only
-- when its time to live is over, a window after the latest allowed call; what is done to other keys
-- does not show.
pub data Run (z : ZsetServer) (l : SlidingWindowLimiter) (key : Text)
    : z.Server → List ℕ → ℕ → Type 0 where
  start : (s : z.Server) (t : ℕ) → z.rows s key ≡ [] → Run z l key s [] t
  call :
      {s : z.Server} {h : List ℕ} {t : ℕ} (cached : Bool) (now : ℕ) (member : Text)
      → Run z l key s h t
      → t ≤ now
      → count (λ (r : Row). text_eq r.0 member) (z.rows s key) ≡ 0
      → Run z l key
          (check z l cached s key now member).1
          (noted now h (check z l cached s key now member).0)
          now
  expire :
      {s : z.Server} {h : List ℕ} {t : ℕ} (now : ℕ)
      → Run z l key s h t
      → t ≤ now
      → AllTimes (λ a. a + l.window_ms ≤ now) h
      → Run z l key (z.vanish s key) h now
  elsewhere :
      {s s' : z.Server} {h : List ℕ} {t : ℕ}
      → Run z l key s h t
      → z.rows s' key ≡ z.rows s key
      → Run z l key s' h t

-- The time lies in the window that ends with `now`: after `now - window`, up to `now`.
abbrev pub in_window : ℕ → ℕ → ℕ → Bool
in_window window now a = leb a now && ltb now (a + window)

abbrev recent : ℕ → ℕ → ℕ → Bool
recent window now a = ltb now (a + window)

AllTimes-le :
    {t now : ℕ} (h : List ℕ) → t ≤ now → AllTimes (λ a. a ≤ t) h → AllTimes (λ a. a ≤ now) h
AllTimes-le [] e p = tt
AllTimes-le (a ∷ h) e p = (omega arith, AllTimes-le h e p.1)

recent_none :
    (window now later : ℕ) (h : List ℕ)
    → AllTimes (λ a. a + window ≤ now) h
    → now ≤ later
    → count (recent window later) h ≡ 0
recent_none window now later [] p e = refl
recent_none window now later (a ∷ h) p e = ground (arith, recent_none window now later h p.1 e)

module _ (z : ZsetServer) (l : SlidingWindowLimiter) (key : Text) where
  open z use {Server, rows}
  open l use {window_ms, max}

  record Holds (s : Server) (h : List ℕ) (t : ℕ) : Type 0 where
    latest : AllTimes (λ a. a ≤ t) h
    -- Each allowed call that is less than a window old has a row.
    covered :
        (now : ℕ)
        → t ≤ now
        → count (recent window_ms now) h ≤ count (live window_ms now) (rows s key)
    rate : (now : ℕ) → count (in_window window_ms now) h ≤ max

  noted_refused :
      (now n : ℕ) (h : List ℕ) (xs : List Row)
      → noted now h (limit_result l (too_many window_ms now n xs)) ≡ h
  unfolding limit_result too_many
  noted_refused now n h [] = refl
  noted_refused now n h (x ∷ xs) = refl

  module _ {s : Server} {h : List ℕ} {t : ℕ} (v : Holds s h t) (now : ℕ) (e : t ≤ now) where
    live-found :
        (later : ℕ)
        → now ≤ later
        → count (live window_ms later) (found z l s key now)
          ≡ count (live window_ms later) (rows s key)
    live-found later f =
        count-keep (live window_ms later) (live window_ms now) (rows s key) (λ r. ground arith)

    Holds-refused : (s' : Server) → rows s' key ≡ found z l s key now → Holds s' h now
    Holds-refused s' same = record {
      latest = AllTimes-le h e v.latest;
      covered = λ later f. rw (same, live-found later f) (v.covered later (omega arith));
      rate = v.rate;
    }

    Holds-allowed :
        (s' : Server) (member : Text)
        → count (λ (r : Row). text_eq r.0 member) (rows s key) ≡ 0
        → length (found z l s key now) < max
        → ((p : Row → Bool)
            → count p (rows s' key)
              ≡ count p ((member, now) ∷ without member (found z l s key now)))
        → Holds s' (now ∷ h) now
    Holds-allowed s' member fresh free new = record {
      latest = (omega arith, AllTimes-le h e v.latest);
      covered = λ later f.
          rw (new (live window_ms later), gone)
            (ground (arith, v.covered later (omega arith), live-found later f));
      rate = rate;
    }
      where
        gone : without member (found z l s key now) ≡ found z l s key now
        gone =
            keep-not_counted (λ (r : Row). text_eq r.0 member) (found z l s key now)
              (omega (
                arith,
                count-keep-le (λ (r : Row). text_eq r.0 member) (live window_ms now) (rows s key),
              ))

        -- A window that ends before `now` does not see the call; a later one sees the call and
        -- at most the live rows.
        rate : (later : ℕ) → count (in_window window_ms later) (now ∷ h) ≤ max
        rate later = elim (Bool-cases (leb now later)) [
          | inl here ↦
              let seen =
                count_mono (in_window window_ms later) (recent window_ms now) h
                  (λ a. ground arith) in
              ground (arith, seen, v.covered now e, length-keep (live window_ms now) (rows s key))
          | inr before ↦ ground (arith, v.rate later)
        ]

  Run-Holds : {s : Server} {h : List ℕ} {t : ℕ} → 0 < window_ms → Run z l key s h t → Holds s h t
  Run-Holds w (start s t empty) = record {
    latest = tt;
    covered = λ now e. omega arith;
    rate = λ now. omega arith;
  }
  Run-Holds w (call {s} {h} {t} cached now member r e fresh) =
      elim (Bool-cases (ltb (length (found z l s key now)) max)) [
        | inl free ↦
            let c = check_free z l key now member cached s (ground arith) w in
            rw c.0 (Holds-allowed (Run-Holds w r) now e _ member fresh (ground arith) c.1)
        | inr full ↦
            let c = check_full z l key now member cached s (ground arith) in
            rw (c.0, noted_refused) (Holds-refused (Run-Holds w r) now e _ c.1)
      ]
  Run-Holds w (expire {s} {h} {t} now r e old) =
      let v = Run-Holds w r in
      record {
        latest = AllTimes-le h e v.latest;
        covered = λ later f. rw (recent_none window_ms now later h old f) (omega arith);
        rate = v.rate;
      }
  Run-Holds w (elsewhere {s} {s'} {h} {t} r same) =
      let v = Run-Holds w r in
      record { latest = v.latest; covered = λ now e. rw same (v.covered now e); rate = v.rate }

  -- However the calls are spread, within any window of time at most `max` of them are allowed:
  -- over the whole life of a key, also where it expires in between, and whatever happens to other
  -- keys.
  pub rate_bound :
      {s : Server} {h : List ℕ} {t : ℕ}
      → 0 < window_ms
      → Run z l key s h t
      → (now : ℕ) → count (in_window window_ms now) h ≤ max
  rate_bound w r now = (Run-Holds w r).rate now
