-- ===== src/Sessions.antt =====
-- The sessions of app/services/session_service.py. The server's clock counts seconds.
use redis_project.Base.{
  ℕ, Bool, not, Option, none, some, List, [], ◌∷◌, Text, codes, length, take, ◌==◌, if◌then◌else◌,
}
use mathlib.Core.Option
use redis_project.Keys
use redis_project.Keys.Decimal.{decimal, number_from}
use redis_project.Redis.Expiring.{Fields, field, HashServer, ExpiringSetServer}
pub mod Created
pub mod Revoked
pub mod Kept
pub mod Reach

-- `settings.access_token_ttl_seconds`
unfoldable pub access_token_ttl_seconds : ℕ
access_token_ttl_seconds = 86400

-- `int(text)` for a text of digits.
unfoldable pub int_of : Text → ℕ
unfolding number_from
int_of s = (number_from 0 s).0

-- The mapping that `create_session` writes.
unfoldable pub session_fields : ℕ → Text → Text → Text → Fields
session_fields user_id user_agent ip created_at =
    (codes "user_id", decimal user_id)
    ∷ (codes "ua", take 256 user_agent)
    ∷ (codes "ip", take 64 ip)
    ∷ (codes "created_at", created_at)
    ∷ []

-- `int(data.get("user_id", 0))`
unfoldable pub owner : Fields → ℕ
unfolding int_of
owner fields = Option.get_or (Option.map int_of (field (codes "user_id") fields)) 0

module _ (h : HashServer) (z : ExpiringSetServer) where
  pub record Store : Type 0 where
    pub hashes : h.Server
    pub sets : z.Server

  -- `create_session`, with the new token and the time as the caller reads them.
  unfoldable pub create_session : Store → ℕ → ℕ → Text → Text → Text → Text → Text × Store
  create_session s t user_id user_agent ip token created_at =
      let key = Keys.session token in
      let fields = session_fields user_id user_agent ip created_at in
      (
        token,
        record {
          hashes = h.expire (h.hset s.hashes t key fields) t key access_token_ttl_seconds;
          sets =
              z.expire (z.sadd s.sets t (Keys.user_sessions user_id) token) t
                (Keys.user_sessions user_id) access_token_ttl_seconds;
        },
      )

  unfoldable pub get_session : Store → ℕ → Text → Option Fields
  get_session s t token = h.hgetall s.hashes t (Keys.session token)

  unfoldable pub revoke_session : Store → ℕ → Text → Store
  revoke_session s t token = elim (h.hgetall s.hashes t (Keys.session token)) [
    | none ↦ s
    | some fields ↦ record {
      hashes = h.del s.hashes t (Keys.session token);
      sets =
          if not (owner fields == 0)
          then z.srem s.sets t (Keys.user_sessions (owner fields)) token
          else s.sets;
    }
  ]

  -- The `for` loop of `revoke_all_sessions`.
  unfoldable pub delete_sessions : h.Server → ℕ → List Text → h.Server
  delete_sessions s t [] = s
  delete_sessions s t (token ∷ tokens) = delete_sessions (h.del s t (Keys.session token)) t tokens

  unfoldable pub revoke_tokens : Store → ℕ → ℕ → List Text → ℕ × Store
  revoke_tokens s t user_id [] = (0, s)
  revoke_tokens s t user_id (token ∷ tokens) = (
    length (token ∷ tokens),
    record {
      hashes = delete_sessions s.hashes t (token ∷ tokens);
      sets = z.del s.sets t (Keys.user_sessions user_id);
    },
  )

  unfoldable pub revoke_all_sessions : Store → ℕ → ℕ → ℕ × Store
  unfolding revoke_tokens
  revoke_all_sessions s t user_id =
      revoke_tokens s t user_id (z.smembers s.sets t (Keys.user_sessions user_id))
