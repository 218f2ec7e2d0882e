-- ===== src/Redis/Buckets.antt =====
-- A hash with the two number fields `tokens` and `ts`, which are always written together.
use redis_project.Base.{ℕ, ◌≡◌, ◌≢◌, Option, none, some, Text}

pub record BucketServer : Type 1 where
  pub Server : Type 0
  -- HMGET key tokens ts
  pub hmget : Server → Text → Option (ℕ × ℕ)
  -- HMSET key tokens … ts …
  pub hmset : Server → Text → ℕ → ℕ → Server
  pub pexpire : Server → Text → ℕ → Server
  -- The key's time to live runs out.
  pub vanish : Server → Text → Server
  pub hmget_hmset : (s : Server) (k : Text) (x ts : ℕ) → hmget (hmset s k x ts) k ≡ some (x, ts)
  pub hmset_other :
      (s : Server) (k : Text) (x ts : ℕ) (j : Text) → j ≢ k → hmget (hmset s k x ts) j ≡ hmget s j
  pub hmget_pexpire :
      (s : Server) (k : Text) (ttl : ℕ) (j : Text) → hmget (pexpire s k ttl) j ≡ hmget s j
  pub hmget_vanish : (s : Server) (k : Text) → hmget (vanish s k) k ≡ none
