-- ===== src/Redis/Hyperloglogs.antt =====
-- HyperLogLogs. What PFCOUNT answers is an estimate, so the laws say only what does not change it.
use redis_project.Base.{ℕ, ◌≡◌, ◌≢◌, ◌<◌, Text}

pub record HyperloglogServer : Type 1 where
  pub Server : Type 0
  -- PFCOUNT key
  pub pfcount : Server → Text → ℕ
  pub pfadd : Server → Text → Text → Server
  -- EXPIRE key
  pub expire : Server → Text → ℕ → Server
  -- An element that has been added changes nothing when it is added again.
  pub pfadd_again :
      (s : Server) (k x : Text) → pfcount (pfadd (pfadd s k x) k x) k ≡ pfcount (pfadd s k x) k
  pub pfadd_other : (s : Server) (k x j : Text) → j ≢ k → pfcount (pfadd s k x) j ≡ pfcount s j
  -- A positive time to live takes nothing away at once.
  pub pfcount_expire :
      (s : Server) (k : Text) (ttl : ℕ) (j : Text)
      → 0 < ttl
      → pfcount (expire s k ttl) j ≡ pfcount s j
