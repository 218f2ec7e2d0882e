-- ===== src/Api/Auth.antt =====
-- app/api/auth.py.
use redis_project.Base.{
  ℕ, Bool, true, false, Option, none, some, [], ◌∷◌, ◌++◌, Text, codes, if◌then◌else◌,
}
use mathlib.Core.Option
use redis_project.Api.{Site, Web, Reply, ok, http_exception, after_space, seconds, with_user}
use redis_project.Keys.Decimal.{decimal}
use redis_project.Services.Accounts.{User, UserCreate, UserPublic, to_public, create_user}
use redis_project.Sessions.{
  access_token_ttl_seconds, create_session, revoke_session, revoke_all_sessions,
}
pub mod Granted
pub mod Ended

pub record TokenResponse : Type 0 where
  pub access_token : Text
  pub expires_in : ℕ
  pub user : UserPublic

-- The token that `logout` takes from the header.
unfoldable pub logout_token : Option Text → Text
logout_token none = []
logout_token (some auth) = Option.get_or (after_space auth) []

module _ (p : Site) where
  unfoldable pub register : Text → UserCreate → Web p → Reply UserPublic × Web p
  unfolding to_public create_user
  register salt new w = elim (create_user p.users p.passwords salt new w.users) [
    | none ↦ (http_exception 409 (codes "username or email already exists"), w)
    | some (user, users) ↦ (ok (to_public user), record w { users = users })
  ]

  -- `login` once the user is there and the password is right, with the new token.
  unfoldable pub open_session : User → Text → Text → Text → Web p → Reply TokenResponse × Web p
  unfolding seconds to_public
  open_session user user_agent ip token w =
      let (access_token, sessions) =
        create_session p.hashes p.sets w.sessions (seconds p w) user.id user_agent ip token
          (p.iso_of (seconds p w)) in
      (
        ok (record {
          access_token = access_token;
          expires_in = access_token_ttl_seconds;
          user = to_public user;
        }),
        record w { sessions = sessions },
      )

  unfoldable pub login : Text → Text → Text → Text → Text → Web p → Reply TokenResponse × Web p
  unfolding open_session
  login username password user_agent ip token w = elim (p.users.select_username w.users username) [
    | none ↦ (http_exception 401 (codes "invalid credentials"), w)
    | some user ↦
        if p.passwords.verify password user.password_hash
        then open_session user user_agent ip token w
        else (http_exception 401 (codes "invalid credentials"), w)
  ]

  unfoldable pub logout : Option Text → Web p → Reply Text × Web p
  unfolding logout_token with_user seconds
  logout authorization = with_user p authorization (λ user_id w. (
    ok (codes "logged out"),
    record w {
      sessions =
          revoke_session p.hashes p.sets w.sessions (seconds p w) (logout_token authorization);
    },
  ))

  unfoldable pub logout_all : Option Text → Web p → Reply Text × Web p
  unfolding with_user seconds
  logout_all authorization = with_user p authorization (λ user_id w.
      let (n, sessions) = revoke_all_sessions p.hashes p.sets w.sessions (seconds p w) user_id in
      (ok (codes "revoked " ++ (decimal n ++ codes " sessions")), record w { sessions = sessions }))
