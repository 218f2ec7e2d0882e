-- ===== src/Api/Auth/Granted.antt =====
-- From the registration to the requests that carry the token.
use redis_project.Base.{
  ℕ, ◌+◌, ◌/◌, ◌≤◌, ◌<◌, ◌≡◌, refl, ◌∙◌, none, some, ◌++◌, Text, codes, arith, lt→ltb,
}
use redis_project.Api.{Site, Web, ok, at, seconds, strip, current_user_id}
use redis_project.Api.Tokens.{
  bearer_token-Bearer, current_user_id-token, user_of_token-present, user_of_session-session_fields,
}
use redis_project.Api.Auth.{register, login, open_session}
use redis_project.Services.Accounts.{User, UserCreate, to_public, create_user, shown_name}
use redis_project.Sessions.{create_session, access_token_ttl_seconds, get_session, session_fields}
use redis_project.Sessions.Created.{get_session-create_session}

module _ (p : Site) (user : User) (user_agent ip token : Text) (w : Web p)
    (fresh : get_session p.hashes p.sets w.sessions (seconds p w) token ≡ none)
    (plain : strip token ≡ token) where
  -- The session that is opened lets its user in, until its time to live is over.
  current_user_id-open_session :
      (now : ℕ)
      → w.app.now ≤ now
      → now / 1000000 < w.app.now / 1000000 + access_token_ttl_seconds
      → (current_user_id p
          (some (codes "Bearer " ++ token))
          (at now (open_session p user user_agent ip token w).1)).0
        ≡ ok user.id
  unfolding open_session seconds
  current_user_id-open_session now later early =
      let w' = at now (open_session p user user_agent ip token w).1 in
      let t = w.app.now / 1000000 in
      let found =
        get_session-create_session p.hashes p.sets w.sessions t user.id user_agent ip token
          (p.iso_of t) fresh (now / 1000000) (omega arith)
        ∙ rw (lt→ltb (now / 1000000) (t + access_token_ttl_seconds) early) refl in
      rw
        (
          current_user_id-token p (some (codes "Bearer " ++ token)) w' token
              (bearer_token-Bearer token plain),
          user_of_token-present p w' token (session_fields user.id user_agent ip (p.iso_of t))
              found,
        )
        (user_of_session-session_fields p user.id user_agent ip (p.iso_of t))

module _ (p : Site) (salt : Text) (new : UserCreate) (w : Web p) (user : User) (users : p.users.Db)
    (made : create_user p.users p.passwords salt new w.users ≡ some (user, users)) where
  register_made : register p salt new w ≡ (ok (to_public user), record w { users = users })
  unfolding register
  register_made = rw (made, register) refl

  module _ (user_agent ip token : Text) where
    login_made :
        let w₁ : Web p = record w { users = users } in
        login p new.username new.password user_agent ip token w₁
        ≡ open_session p user user_agent ip token w₁
    unfolding login create_user
    login_made =
        let found =
          p.users.select_insert w.users users new.username new.email
            (p.passwords.hash salt new.password) (shown_name new) new.bio user made in
        let hashed =
          p.users.insert_hash w.users users new.username new.email
            (p.passwords.hash salt new.password) (shown_name new) new.bio user made in
        rw (found, hashed, p.passwords.verify_hash salt new.password, login) refl

    -- Who registers can log in, with the same name and password, and the token of the login, as
    -- long as it is new and has no spaces at its ends, lets that user in until its time to live is
    -- over.
    pub login-register :
        get_session p.hashes p.sets w.sessions (seconds p w) token ≡ none
        → strip token ≡ token
        → let (public, w₁) = register p salt new w in
          let (reply, w₂) = login p new.username new.password user_agent ip token w₁ in
          (public ≡ ok (to_public user))
          × (reply
              ≡ ok (record {
                access_token = token;
                expires_in = access_token_ttl_seconds;
                user = to_public user;
              }))
          × ((now : ℕ)
              → w.app.now ≤ now
              → now / 1000000 < w.app.now / 1000000 + access_token_ttl_seconds
              → (current_user_id p (some (codes "Bearer " ++ token)) (at now w₂)).0 ≡ ok user.id)
    unfolding seconds
    login-register fresh plain =
        rw (register_made, login_made)
          (
            refl,
            unfold open_session create_session in refl,
            current_user_id-open_session p user user_agent ip token (record w { users = users })
                fresh plain,
          )
