-- ===== src/Redis/Zsets.antt =====
-- Sorted sets. A score is a number of time ticks: milliseconds in the limiter, microseconds in
-- the feeds.
use redis_project.Base.{
  ℕ, suc, ◌-◌, ◌≤◌, ◌<◌, ◌≡◌, ◌≢◌, Bool, true, not, Option, none, some, List, [], reverse, Text,
  text_eq, length, take, drop, keep, count, leb, ltb, ◌∷◌,
}
use redis_project.Base.Int.{ℤ, pos, negsuc}

abbrev pub Row : Type 0
Row = Text × ℕ

-- The rows of other members.
abbrev pub without : Text → List Row → List Row
without member = keep (λ (r : Row). not (text_eq r.0 member))

abbrev pub AllRows : (Row → Type 0) → List Row → Type 0
AllRows P [] = Unit
AllRows P (r ∷ rows) = P r × AllRows P rows

abbrev pub Ascending : List Row → Type 0
Ascending [] = Unit
Ascending (r ∷ rows) = AllRows (λ q. r.1 ≤ q.1) rows × Ascending rows

-- `max` of ZREVRANGEBYSCORE, where `none` is +inf.
abbrev pub within : Option ℕ → Row → Bool
within none r = true
within (some top) r = leb r.1 top

pub record ZsetServer : Type 1 where
  pub Server : Type 0
  -- ZRANGE key 0 -1 WITHSCORES
  pub rows : Server → Text → List Row
  pub exists : Server → Text → Bool
  pub zcard : Server → Text → ℕ
  pub zrange : Server → Text → ℤ → ℤ → List Row
  pub zrevrange : Server → Text → ℤ → ℤ → List Row
  -- ZREVRANGEBYSCORE key max -inf WITHSCORES LIMIT 0 num
  pub zrevrangebyscore : Server → Text → Option ℕ → ℕ → List Row
  pub zadd : Server → Text → Text → ℕ → Server
  pub zremrangebyrank : Server → Text → ℤ → ℤ → Server
  pub zremrangebyscore : Server → Text → ℤ → ℤ → Server
  pub pexpire : Server → Text → ℕ → Server
  -- The key's time to live runs out.
  pub vanish : Server → Text → Server
  -- Rows stand by rising score.
  pub rows_ascending : (s : Server) (k : Text) → Ascending (rows s k)
  -- Reads.
  pub exists_lem : (s : Server) (k : Text) → exists s k ≡ ltb 0 (length (rows s k))
  pub zcard_lem : (s : Server) (k : Text) → zcard s k ≡ length (rows s k)
  pub zrange_lowest : (s : Server) (k : Text) → zrange s k (pos 0) (pos 0) ≡ take 1 (rows s k)
  pub zrevrange_top :
      (s : Server) (k : Text) (n : ℕ)
      → zrevrange s k (pos 0) (pos n) ≡ take (suc n) (reverse (rows s k))
  pub zrevrangebyscore_lem :
      (s : Server) (k : Text) (top : Option ℕ) (n : ℕ)
      → zrevrangebyscore s k top n ≡ take n (keep (within top) (reverse (rows s k)))
  -- ZADD replaces the member's row, or adds it.
  pub rows_zadd :
      (s : Server) (k m : Text) (x : ℕ) (p : Row → Bool)
      → count p (rows (zadd s k m x) k) ≡ count p ((m, x) ∷ without m (rows s k))
  pub zadd_other :
      (s : Server) (k m : Text) (x : ℕ) (j : Text) → j ≢ k → rows (zadd s k m x) j ≡ rows s j
  -- The ranks 0 to -n - 1 are all but the n highest.
  pub rows_zremrangebyrank :
      (s : Server) (k : Text) (n : ℕ)
      → rows (zremrangebyrank s k (pos 0) (negsuc n)) k ≡ drop (length (rows s k) - n) (rows s k)
  pub zremrangebyrank_other :
      (s : Server) (k : Text) (lo hi : ℤ) (j : Text)
      → j ≢ k
      → rows (zremrangebyrank s k lo hi) j ≡ rows s j
  -- Both ends of a range of scores are in it.
  pub rows_zremrangebyscore :
      (s : Server) (k : Text) (top : ℕ)
      → rows (zremrangebyscore s k (pos 0) (pos top)) k ≡ keep (λ (r : Row). ltb top r.1) (rows s k)
  pub rows_zremrangebyscore_none :
      (s : Server) (k : Text) (n : ℕ) → rows (zremrangebyscore s k (pos 0) (negsuc n)) k ≡ rows s k
  pub zremrangebyscore_other :
      (s : Server) (k : Text) (lo hi : ℤ) (j : Text)
      → j ≢ k
      → rows (zremrangebyscore s k lo hi) j ≡ rows s j
  -- A positive time to live removes nothing at once.
  pub rows_pexpire :
      (s : Server) (k : Text) (ttl : ℕ) (j : Text) → 0 < ttl → rows (pexpire s k ttl) j ≡ rows s j
  pub rows_vanish : (s : Server) (k : Text) → rows (vanish s k) k ≡ []
  pub vanish_other : (s : Server) (k j : Text) → j ≢ k → rows (vanish s k) j ≡ rows s j
