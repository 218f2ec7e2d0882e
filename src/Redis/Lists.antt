-- ===== src/Redis/Lists.antt =====
-- Lists, as the activity logs use them.
use redis_project.Base.Int.{ℤ, pos, negsuc}
use redis_project.Base.{ℕ, suc, ◌≡◌, ◌≢◌, List, ◌∷◌, Text, take}

pub record ListServer : Type 1 where
  pub Server : Type 0
  -- LRANGE key 0 -1
  pub items : Server → Text → List Text
  -- LRANGE key 0 stop
  pub lrange : Server → Text → ℤ → List Text
  pub lpush : Server → Text → Text → Server
  -- LTRIM key 0 n - 1
  pub ltrim : Server → Text → ℕ → Server
  pub lrange_first : (s : Server) (k : Text) (n : ℕ) → lrange s k (pos n) ≡ take (suc n) (items s k)
  pub lrange_all : (s : Server) (k : Text) → lrange s k (negsuc 0) ≡ items s k
  pub items_lpush : (s : Server) (k v : Text) → items (lpush s k v) k ≡ v ∷ items s k
  pub lpush_other : (s : Server) (k v j : Text) → j ≢ k → items (lpush s k v) j ≡ items s j
  pub items_ltrim : (s : Server) (k : Text) (n : ℕ) → items (ltrim s k n) k ≡ take n (items s k)
  pub ltrim_other :
      (s : Server) (k : Text) (n : ℕ) (j : Text) → j ≢ k → items (ltrim s k n) j ≡ items s j
