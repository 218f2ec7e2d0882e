-- ===== src/RateLimiter/Script.antt =====
-- What one call of `check` does to the key's rows, on each branch of the script.
use redis_project.Base.{
  ℕ, ◌+◌, ◌-◌, ◌≤◌, ◌<◌, ◌≡◌, refl, sym, ap, ◌∙◌, inl, inr, Bool, true, false, none, some, List, [],
  ◌∷◌, Text, Bool-cases, arith, leb, ltb, length, take, keep, keep_same, keep-all, keep_twice,
  count, Option,
}
use redis_project.Base.Int.{pos}
use mathlib.Core.Path.{subst}
use redis_project.Redis.Zsets.{Row, ZsetServer, without}
use redis_project.RateLimiter.{
  Reply, SlidingWindowLimiter, sliding_window, too_many, limit_result, prune, admit, sliding_lua,
  evalsha, retry_whole, check,
}

-- The rows that still count at a time: those less than a window old.
abbrev pub live : ℕ → ℕ → Row → Bool
live window now r = ltb now (r.1 + window)

too_many-take :
    (window now n : ℕ) (rows : List Row)
    → too_many window now n (take 1 rows) ≡ too_many window now n rows
unfolding too_many
too_many-take window now n [] = refl
too_many-take window now n (r ∷ rows) = refl

module _ (z : ZsetServer) (key : Text) (window now : ℕ) where
  open z use {Server, rows, zremrangebyscore}

  -- The script's first command keeps the live rows.
  rows-prune :
      (s : Server) → rows (prune z s key window now) key ≡ keep (live window now) (rows s key)
  unfolding prune
  rows-prune s = elim (Bool-cases (leb window now)) [
    | inl old ↦
        rw (old, prune)
          (z.rows_zremrangebyscore s key (now - window)
            ∙ keep_same _ (live window now) (rows s key) (λ r. ground arith))
    | inr young ↦
        rw (young, prune)
          (z.rows_zremrangebyscore_none s key (window - now - 1)
            ∙ sym (keep-all (live window now) (rows s key) (λ r. ground arith)))
  ]

  module _ (limit : ℕ) (member : Text) (s : Server) where
    admit_full :
        limit ≤ length (rows s key)
        → admit z s key window limit now member
          ≡ (too_many window now (length (rows s key)) (rows s key), s)
    unfolding admit
    admit_full h = rw (z.zcard_lem s key, z.zrange_lowest s key, too_many-take) (ground arith)

    admit_free :
        length (rows s key) < limit
        → 0 < window
        → ((admit z s key window limit now member).0
            ≡ some
                (record { allowed = true; count = length (rows s key) + 1; retry_after = pos 0 }))
          × ((p : Row → Bool)
              → count p (rows (admit z s key window limit now member).1 key)
                ≡ count p ((member, now) ∷ without member (rows s key)))
    unfolding admit
    admit_free h w =
        let e : leb limit (z.zcard s key) ≡ false = rw (z.zcard_lem s key) (ground arith) in
        rw (e, admit)
          (
            rw (z.zcard_lem s key) refl,
            λ p.
                ap (count p) (z.rows_pexpire (z.zadd s key member now) key window key w)
                ∙ z.rows_zadd s key member now p,
          )

-- The rows that a call at a time finds live.
abbrev pub found : (z : ZsetServer) → SlidingWindowLimiter → z.Server → Text → ℕ → List Row
found z l s key now = keep (live l.window_ms now) (z.rows s key)

module _ (z : ZsetServer) (l : SlidingWindowLimiter) (key : Text) (now : ℕ) (member : Text) where
  open z use {Server, rows}
  open l use {window_ms, max}

  -- The reply where the key holds `max` live rows, and the server that it leaves.
  abbrev Refused : List Row → Option Reply × Server → Type 0
  Refused xs r = (r.0 ≡ too_many window_ms now (length xs) xs) × (rows r.1 key ≡ xs)

  -- The reply where there is room, and the rows that it leaves.
  abbrev Allowed : List Row → Option Reply × Server → Type 0
  Allowed xs r =
      (r.0 ≡ some (record { allowed = true; count = length xs + 1; retry_after = pos 0 }))
      × ((p : Row → Bool) → count p (rows r.1 key) ≡ count p ((member, now) ∷ without member xs))

  sliding_lua_full :
      (s : Server)
      → max ≤ length (found z l s key now)
      → Refused (found z l s key now) (sliding_lua z s key window_ms max now member)
  unfolding sliding_lua
  sliding_lua_full s h =
      let e = rows-prune z key window_ms now s in
      let full = admit_full z key window_ms now max member (prune z s key window_ms now) (rw e h) in
      (
        ap (λ (r : Option Reply × Server). r.0) full
            ∙ ap (λ (xs : List Row). too_many window_ms now (length xs) xs) e,
        ap (λ (r : Option Reply × Server). rows r.1 key) full ∙ e,
      )

  sliding_lua_free :
      (s : Server)
      → length (found z l s key now) < max
      → 0 < window_ms
      → Allowed (found z l s key now) (sliding_lua z s key window_ms max now member)
  unfolding sliding_lua
  sliding_lua_free s h w =
      let e = rows-prune z key window_ms now s in
      let free =
        admit_free z key window_ms now max member (prune z s key window_ms now) (rw e h) w in
      (free.0 ∙ rw e refl, λ p. free.1 p ∙ rw e refl)

  -- An error reply is followed by a second run, which finds the same rows.
  retry_whole_full :
      (s : Server) (r : Option Reply × Server)
      → max ≤ length (found z l s key now)
      → Refused (found z l s key now) r
      → Refused (found z l s key now) (retry_whole z l key now member r)
  unfolding retry_whole
  retry_whole_full s (some reply, s') h e = e
  retry_whole_full s (none, s') h e =
      subst (λ (xs : List Row). Refused xs (sliding_lua z s' key window_ms max now member)) same
        (sliding_lua_full s' (rw same h))
    where
      same : found z l s' key now ≡ found z l s key now
      same = ap (keep (live window_ms now)) e.1 ∙ keep_twice (live window_ms now) (rows s key)

  -- With `max` live rows a call is refused: it reports how long until the oldest row is a window
  -- old, records nothing, and leaves the live rows alone. It is an exception where `max` is 0.
  pub check_full :
      (cached : Bool) (s : Server)
      → max ≤ length (found z l s key now)
      → ((check z l cached s key now member).0
          ≡ limit_result l
              (too_many window_ms now (length (found z l s key now)) (found z l s key now)))
        × (rows (check z l cached s key now member).1 key ≡ found z l s key now)
  unfolding check evalsha retry_whole
  check_full true s h =
      let r =
        retry_whole_full s (sliding_lua z s key window_ms max now member) h
          (sliding_lua_full s h) in
      (ap (limit_result l) r.0, r.1)
  check_full false s h = let r = sliding_lua_full s h in (ap (limit_result l) r.0, r.1)

  retry_whole_free :
      (xs : List Row) (r : Option Reply × Server)
      → Allowed xs r
      → Allowed xs (retry_whole z l key now member r)
  unfolding retry_whole
  retry_whole_free xs (some reply, s') e = e
  retry_whole_free xs (none, s') e = cc e.0

  -- With fewer live rows a call is allowed: it reports what is left of the budget, and records
  -- one row, its own, beside the live ones.
  pub check_free :
      (cached : Bool) (s : Server)
      → length (found z l s key now) < max
      → 0 < window_ms
      → ((check z l cached s key now member).0
          ≡ some (record {
            allowed = true;
            remaining = max - (length (found z l s key now) + 1);
            retry_after_ms = pos 0;
            algorithm = sliding_window;
          }))
        × ((p : Row → Bool)
            → count p (rows (check z l cached s key now member).1 key)
              ≡ count p ((member, now) ∷ without member (found z l s key now)))
  unfolding check evalsha limit_result retry_whole
  check_free true s h w =
      let r =
        retry_whole_free (found z l s key now) (sliding_lua z s key window_ms max now member)
          (sliding_lua_free s h w) in
      (ap (limit_result l) r.0, r.1)
  check_free false s h w = let r = sliding_lua_free s h w in (ap (limit_result l) r.0, r.1)
