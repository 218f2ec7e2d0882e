-- ===== src/Api/Auth/Ended.antt =====
-- What `logout` ends, and what it does not.
use redis_project.Base.{
  ℕ, ◌/◌, ◌≤◌, ◌≡◌, refl, ap, Option, none, some, ◌++◌, Text, codes, text_eq, arith,
}
use redis_project.Activity.Daily.{record_active}
use redis_project.Api.{
  Site, Web, ok, http_exception, at, seconds, strip, lstrip, is_space, bearer_token, user_of_token,
  user_of_jwt, stamp_active, after_space, current_user_id,
}
use redis_project.Api.Auth.{logout, logout_token}
use redis_project.Api.Tokens.{current_user_id-token, user_of_token-absent, with_user-token}
use redis_project.Keys
use redis_project.Sessions.{get_session, revoke_session}
use redis_project.Sessions.Revoked.{get_session-revoke_session}

-- The header has two spaces before the token.
abbrev pub padded : Text → Option Text
padded token = some (codes "Bearer  " ++ token)

bearer_token-padded :
    (token : Text) → strip token ≡ token → bearer_token (padded token) ≡ some token
unfolding bearer_token after_space Keys.lower Keys.to_lower text_eq strip lstrip is_space
bearer_token-padded token plain = ap some plain

module _ (p : Site) (w : Web p) (user_id : ℕ) (token : Text) (authorization : Option Text)
    (given : bearer_token authorization ≡ some token)
    (known : user_of_token p w token ≡ ok user_id) where
  abbrev logged_out : Web p
  logged_out = record w {
    sessions = revoke_session p.hashes p.sets w.sessions (seconds p w) (logout_token authorization);
    viewers = record_active p.viewers w.viewers (p.day_of (seconds p w)) user_id;
  }

  logout-token : logout p authorization w ≡ (ok (codes "logged out"), logged_out)
  unfolding logout stamp_active seconds
  logout-token = rw (with_user-token p authorization w token given user_id known) refl

  -- Once its user has logged out, a token that the header gives without spaces around it is let in
  -- no more, at that moment or later, but where it is a JWT as well.
  pub logout_lem :
      logout_token authorization ≡ token
      → let (reply, w') = logout p authorization w in
        (reply ≡ ok (codes "logged out"))
        × ((now : ℕ)
            → w.app.now ≤ now
            → p.jwt.decode (now / 1000000) token ≡ none
            → (current_user_id p authorization (at now w')).0
              ≡ http_exception 401 (codes "invalid token"))
  unfolding seconds user_of_jwt
  logout_lem same = rw logout-token (
    refl,
    λ now later foreign.
        let w' : Web p = at now logged_out in
        let gone =
          get_session-revoke_session p.hashes p.sets w.sessions (w.app.now / 1000000) token
            (now / 1000000) (omega arith) in
        rw
          (
            current_user_id-token p authorization w' token given,
            user_of_token-absent p w' token (rw same gone),
            foreign,
            user_of_jwt,
          )
          refl,
  )

revoke_session-absent :
    (p : Site) (w : Web p) (token : Text)
    → get_session p.hashes p.sets w.sessions (seconds p w) token ≡ none
    → revoke_session p.hashes p.sets w.sessions (seconds p w) token ≡ w.sessions
unfolding revoke_session get_session
revoke_session-absent p w token e = rw (e, revoke_session) refl

-- Where the header has two spaces before a token that is a session's, a logout answers as always
-- and leaves the session: the token is let in as if there had been no logout.
pub logout-padded :
    (p : Site) (w : Web p) (user_id : ℕ) (token : Text)
    → strip token ≡ token
    → user_of_token p w token ≡ ok user_id
    → get_session p.hashes p.sets w.sessions (seconds p w) (codes " " ++ token) ≡ none
    → let (reply, w') = logout p (padded token) w in
      (reply ≡ ok (codes "logged out"))
      × (w'.sessions ≡ w.sessions)
      × ((now : ℕ)
          → (current_user_id p (padded token) (at now w')).0
            ≡ (current_user_id p (padded token) (at now w)).0)
unfolding logout_token after_space user_of_token user_of_jwt seconds
logout-padded p w user_id token plain known nowhere =
    let given = bearer_token-padded token plain in
    let same = revoke_session-absent p w (codes " " ++ token) nowhere in
    let after = logged_out p w user_id token (padded token) given known in
    rw (logout-token p w user_id token (padded token) given known) (
      refl,
      same,
      λ now.
          rw
            (
              current_user_id-token p (padded token) (at now after) token given,
              current_user_id-token p (padded token) (at now w) token given,
            )
            (ap (λ s. user_of_token p (record (at now w) { sessions = s }) token) same),
    )
