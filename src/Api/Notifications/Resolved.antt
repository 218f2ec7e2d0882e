-- ===== src/Api/Notifications/Resolved.antt =====
-- A WebSocket lets in whom the routes let in.
use redis_project.Base.{ℕ, ◌≡◌, ◌↔◌, refl, inl, inr, Option, none, some, Text, Option-cases}
use redis_project.Api.{
  Site, Web, Reply, ok, http_exception, crashed, seconds, user_of_session, user_of_jwt,
  user_of_token,
}
use redis_project.Api.Notifications.{resolve_user, some_user, try_jwt}
use redis_project.Sessions.{get_session}

some_user-ok :
    (p : Site) (r : Reply ℕ) (user_id : ℕ) → (r ≡ ok user_id) ↔ (some_user p r ≡ ok (some user_id))
unfolding some_user
some_user-ok p (ok n) user_id = (λ e. cc e, λ e. cc e)
some_user-ok p (http_exception status detail) user_id = (λ e. absurd (cc e), λ e. absurd (cc e))
some_user-ok p crashed user_id = (λ e. absurd (cc e), λ e. absurd (cc e))

jwt-ok :
    (p : Site) (w : Web p) (token : Text) (user_id : ℕ)
    → (user_of_jwt p w token ≡ ok user_id)
      ↔ (◌≡◌ {A = Reply (Option ℕ)} (ok (try_jwt p w token)) (ok (some user_id)))
unfolding user_of_jwt try_jwt
jwt-ok p w token user_id = go (p.jwt.decode (seconds p w) token) refl
  where
    go :
        (d : Option (Option ℕ))
        → p.jwt.decode (seconds p w) token ≡ d
        → (user_of_jwt p w token ≡ ok user_id)
          ↔ (◌≡◌ {A = Reply (Option ℕ)} (ok (try_jwt p w token)) (ok (some user_id)))
    go none e = rw (e, user_of_jwt, try_jwt) (λ q. absurd (cc q), λ q. absurd (cc q))
    go (some none) e = rw (e, user_of_jwt, try_jwt) (λ q. absurd (cc q), λ q. absurd (cc q))
    go (some (some n)) e = rw (e, user_of_jwt, try_jwt) (λ q. cc q, λ q. cc q)

-- A WebSocket is opened for a user exactly where the routes take the same token for that user's.
pub resolve_user_lem :
    (p : Site) (w : Web p) (token : Text) (user_id : ℕ)
    → (user_of_token p w token ≡ ok user_id) ↔ (resolve_user p w token ≡ ok (some user_id))
unfolding user_of_token resolve_user
resolve_user_lem p w token user_id =
    elim (Option-cases (get_session p.hashes p.sets w.sessions (seconds p w) token)) [
      | inl absent ↦ rw (absent, user_of_token, resolve_user) (jwt-ok p w token user_id)
      | inr (session, present) ↦
          rw (present, user_of_token, resolve_user)
            (some_user-ok p (user_of_session p session) user_id)
    ]
