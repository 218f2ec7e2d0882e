-- ===== src/Redis/Sets.antt =====
-- Sets that never expire: the social graph and the likers of a post.
use redis_project.Base.{◌≡◌, ◌≢◌, not, ◌&&◌, ◌||◌, List, Text, text_eq}
use redis_project.Redis.Expiring.{contains}

pub record SetServer : Type 1 where
  pub Server : Type 0
  -- SMEMBERS key
  pub smembers : Server → Text → List Text
  pub sadd : Server → Text → Text → Server
  pub srem : Server → Text → Text → Server
  pub contains_sadd :
      (s : Server) (k m x : Text)
      → contains x (smembers (sadd s k m) k) ≡ (text_eq x m || contains x (smembers s k))
  pub sadd_other : (s : Server) (k m j : Text) → j ≢ k → smembers (sadd s k m) j ≡ smembers s j
  pub contains_srem :
      (s : Server) (k m x : Text)
      → contains x (smembers (srem s k m) k) ≡ (not (text_eq x m) && contains x (smembers s k))
  pub srem_other : (s : Server) (k m j : Text) → j ≢ k → smembers (srem s k m) j ≡ smembers s j
