-- ===== src/Activity/Search.antt =====
-- The search of the activity log.
use redis_project.Base.{
  ℕ, zero, suc, ◌+◌, ◌-◌, ◌==◌, ◌≡◌, refl, inl, inr, Bool, true, false, Option, none, some, List,
  [], ◌∷◌, Text, leb, take, keep, if◌then◌else◌, Bool-cases, Option-cases, arith,
}
use Prim.Native.Nat.{max}
use mathlib.Core.Option
use redis_project.Activity.{Activity, Library, occurs_in, scan_rows, search_recent}
use redis_project.Base.Int.{pos, negsuc}
use redis_project.Keys
use redis_project.Redis.Lists.{ListServer}

module _ (o : Library) where
  -- All rows decoded, in their order, or `none` where one of them is no JSON.
  abbrev pub decoded : List Text → Option (List Activity)
  decoded [] = some []
  decoded (raw ∷ rows) = elim (o.loads raw) [
    | none ↦ none
    | some entry ↦ Option.map (λ out. entry ∷ out) (decoded rows)
  ]

  abbrev pub matches : Text → Text → Bool
  matches q raw = occurs_in q (o.lower raw)

  module _ (g : ListServer) where
    -- What the loop finds, where `n + 1` entries are left to find.
    scan_rows_lem :
        (q : Text) (limit n found : ℕ) (rows : List Text)
        → max 1 (limit - found) ≡ suc n
        → scan_rows o g q limit found rows ≡ decoded (take (suc n) (keep (matches q) rows))
    unfolding scan_rows
    scan_rows_lem q limit n found [] h = refl
    scan_rows_lem q limit n found (raw ∷ rows) h = elim (Bool-cases (occurs_in q (o.lower raw))) [
      | inl hit ↦
          rw (hit, scan_rows) (entry_found (λ m. scan_rows_lem q limit m (found + 1) rows) n h)
      | inr miss ↦ rw (miss, scan_rows) (scan_rows_lem q limit n found rows h)
    ]
      where
        entry_found :
            ((m : ℕ)
              → max 1 (limit - (found + 1)) ≡ suc m
              → scan_rows o g q limit (found + 1) rows
                ≡ decoded (take (suc m) (keep (matches q) rows)))
            → (n : ℕ) → max 1 (limit - found) ≡ suc n
            → (elim (o.loads raw) [
              | none ↦ none
              | some entry ↦
                  if leb limit (found + 1)
                  then some (entry ∷ [])
                  else Option.map (λ out. entry ∷ out) (scan_rows o g q limit (found + 1) rows)
            ])
              ≡ decoded (raw ∷ take n (keep (matches q) rows))
        entry_found others zero h =
            let last : leb limit (found + 1) ≡ true = ground arith in
            elim (Option-cases (o.loads raw)) [
              | inl bad ↦ rw (bad, decoded) refl
              | inr (entry, e) ↦ rw (e, decoded, last) refl
            ]
        entry_found others (suc m) h =
            let more : leb limit (found + 1) ≡ false = ground arith in
            elim (Option-cases (o.loads raw)) [
              | inl bad ↦ rw (bad, decoded) refl
              | inr (entry, e) ↦ rw (e, decoded, more, others m (omega arith)) refl
            ]

    -- The rows that a search reads.
    abbrev pub scanned : ℕ → List Text → List Text
    scanned scan rows = if scan == 0 then rows else take scan rows

    lrange-scanned :
        (s : g.Server) (k : Text) (scan : ℕ)
        → g.lrange s k (if scan == 0 then negsuc 0 else pos (scan - 1)) ≡ scanned scan (g.items s k)
    lrange-scanned s k zero = g.lrange_all s k
    lrange-scanned s k (suc n) =
        let e : suc n - 1 ≡ n = omega arith in
        let some_rows : (suc n == 0) ≡ false = ground arith in
        rw (some_rows, e) (g.lrange_first s k n)

    -- A search returns the newest entries that hold the query, without regard to case, among the
    -- `scan` newest, or among all where `scan` is 0: at most `limit` of them, but one where the limit is 0. It is an exception
    -- exactly where one of these is no JSON.
    pub search_recent_lem :
        (s : g.Server) (query : Text) (limit scan : ℕ)
        → search_recent o g s query limit scan
          ≡ decoded (
              take
                (max 1 limit)
                (keep (matches (o.lower query)) (scanned scan (g.items s Keys.recent_activity))))
    unfolding search_recent
    search_recent_lem s query limit scan =
        let n = max 1 limit - 1 in
        let e : max 1 limit ≡ suc n = omega arith in
        rw (lrange-scanned s Keys.recent_activity scan, e)
          (scan_rows_lem (o.lower query) limit n 0 (scanned scan (g.items s Keys.recent_activity))
            (omega arith))
