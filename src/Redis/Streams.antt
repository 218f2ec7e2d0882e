-- ===== src/Redis/Streams.antt =====
-- Streams whose entries have one field, `data`.
use redis_project.Base.{
  ℕ, suc, ◌+◌, ◌≤◌, ◌≡◌, ◌≢◌, ◌⊎◌, List, [], ◌∷◌, ◌++◌, reverse, Text, length, take, drop,
}

pub record StreamServer : Type 1 where
  pub Server : Type 0
  -- XRANGE key - +: the ids and the data, oldest first
  pub entries : Server → Text → List (Text × Text)
  -- XADD key MAXLEN ~ maxlen * data …: the new id
  pub xadd : Server → Text → Text → ℕ → Text × Server
  -- XREVRANGE key + - COUNT n
  pub xrevrange : Server → Text → ℕ → List (Text × Text)
  -- The new entry stands last. The approximate trim takes old entries away, and never leaves less
  -- than `maxlen`.
  pub entries_xadd :
      (s : Server) (k v : Text) (maxlen : ℕ)
      → (cut : ℕ) × (entries (xadd s k v maxlen).1 k
          ≡ drop cut (entries s k ++ ((xadd s k v maxlen).0, v) ∷ []))
        × ((cut ≡ 0) ⊎ (cut + maxlen ≤ suc (length (entries s k))))
  pub xadd_other :
      (s : Server) (k v : Text) (maxlen : ℕ) (j : Text)
      → j ≢ k
      → entries (xadd s k v maxlen).1 j ≡ entries s j
  pub xrevrange_lem :
      (s : Server) (k : Text) (n : ℕ) → xrevrange s k n ≡ take n (reverse (entries s k))
