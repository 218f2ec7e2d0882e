-- ===== src/Sessions/Reach.antt =====
-- Sequences of the calls of app/services/session_service.py.
use redis_project.Base.{ℕ, ◌≤◌, ◌≡◌, none, Text}
use redis_project.Redis.Expiring.{HashServer, ExpiringSetServer}
use redis_project.Sessions.{Store, create_session, get_session, revoke_session, revoke_all_sessions}
use redis_project.Sessions.Created.{IsValid, later-IsValid, create_session-IsValid}
use redis_project.Sessions.Kept.{revoke_session-IsValid, revoke_all_sessions-IsValid}

module _ (h : HashServer) (z : ExpiringSetServer) where
  -- A call at some time, or time that passes. Tokens are drawn, so a new one names no session.
  pub data Step : Store h z → ℕ → Store h z → ℕ → Type 0 where
    creates :
        (s : Store h z) (t user_id : ℕ) (user_agent ip token created_at : Text)
        → get_session h z s t token ≡ none
        → Step s t (create_session h z s t user_id user_agent ip token created_at).1 t
    revokes : (s : Store h z) (t : ℕ) (token : Text) → Step s t (revoke_session h z s t token) t
    revokes_all :
        (s : Store h z) (t user_id : ℕ) → Step s t (revoke_all_sessions h z s t user_id).1 t
    passes : (s : Store h z) (t u : ℕ) → t ≤ u → Step s t s u

  pub data Reach (s : Store h z) (t : ℕ) : Store h z → ℕ → Type 0 where
    here : Reach s t s t
    next :
        {s' s'' : Store h z} {t' t'' : ℕ} → Reach s t s' t' → Step s' t' s'' t'' → Reach s t s'' t''

  Step-IsValid :
      {t t' : ℕ} {s s' : Store h z} → Step s t s' t' → IsValid h z s t → IsValid h z s' t'
  Step-IsValid (creates s t user_id user_agent ip token created_at fresh) v =
      create_session-IsValid h z s t user_id user_agent ip token created_at v fresh
  Step-IsValid (revokes s t token) v = revoke_session-IsValid h z s t v token
  Step-IsValid (revokes_all s t user_id) v = revoke_all_sessions-IsValid h z s t v user_id
  Step-IsValid (passes s t u later) v = later-IsValid h z later v

  -- From stores in which every session that can be read is in its owner's set, and ends within the
  -- time to live, logins, logouts of one session or of all, and passing time lead only to such
  -- stores.
  pub Reach-IsValid :
      {t : ℕ} {s : Store h z} {t' : ℕ} {s' : Store h z}
      → Reach s t s' t'
      → IsValid h z s t
      → IsValid h z s' t'
  Reach-IsValid here v = v
  Reach-IsValid (next r e) v = Step-IsValid e (Reach-IsValid r v)
