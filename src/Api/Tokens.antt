-- ===== src/Api/Tokens.antt =====
-- How `current_user_id` of app/api/deps.py reads a token.
use redis_project.Base.{ℕ, ◌≡◌, refl, ap, Option, none, some, ◌++◌, Text, codes, text_eq}
use redis_project.Api.{
  Site, Web, Reply, ok, seconds, strip, bearer_token, user_of_token, user_of_jwt, user_of_session,
  stamp_active, after_space, current_user_id, with_user, depending,
}
use redis_project.Keys
use redis_project.Redis.Expiring.{Fields, field}
use redis_project.Sessions.Created.{int_of-decimal}
use redis_project.Sessions.{get_session, session_fields, int_of}

-- The token of a header that is written as clients write it.
pub bearer_token-Bearer :
    (token : Text)
    → strip token ≡ token
    → bearer_token (some (codes "Bearer " ++ token)) ≡ some token
unfolding bearer_token after_space Keys.lower Keys.to_lower text_eq
bearer_token-Bearer token plain = ap some plain

module _ (p : Site) where
  pub current_user_id-token :
      (authorization : Option Text) (w : Web p) (token : Text)
      → bearer_token authorization ≡ some token
      → current_user_id p authorization w
        ≡ (user_of_token p w token, stamp_active p (user_of_token p w token) w)
  unfolding current_user_id
  current_user_id-token authorization w token e = rw (e, current_user_id) refl

  module _ (w : Web p) (token : Text) where
    pub user_of_token-present :
        (session : Fields)
        → get_session p.hashes p.sets w.sessions (seconds p w) token ≡ some session
        → user_of_token p w token ≡ user_of_session p session
    unfolding user_of_token
    user_of_token-present session e = rw (e, user_of_token) refl

    pub user_of_token-absent :
        get_session p.hashes p.sets w.sessions (seconds p w) token ≡ none
        → user_of_token p w token ≡ user_of_jwt p w token
    unfolding user_of_token
    user_of_token-absent e = rw (e, user_of_token) refl

  pub user_of_session-session_fields :
      (user_id : ℕ) (ua ip created_at : Text)
      → user_of_session p (session_fields user_id ua ip created_at) ≡ ok user_id
  unfolding user_of_session session_fields field text_eq int_of
  user_of_session-session_fields user_id ua ip created_at = ap ok (int_of-decimal user_id)

  -- A route that depends on `CurrentUser`, where the token has a user.
  pub with_user-token {ℓ} :
      {A : Type ℓ} (authorization : Option Text) (w : Web p) (token : Text)
      → bearer_token authorization ≡ some token
      → (user_id : ℕ) → user_of_token p w token ≡ ok user_id
      → (route : ℕ → Web p → Reply A × Web p)
      → with_user p authorization route w ≡ route user_id (stamp_active p (ok user_id) w)
  unfolding with_user depending
  with_user-token authorization w token given user_id known route =
      rw (current_user_id-token authorization w token given, known) refl
