-- ===== src/Sessions/Kept.antt =====
-- Revoking keeps every session that can still be read in its owner's set.
use native.Mathlib.Decide.{ℕ_discrete}
use redis_project.Base.{
  ℕ, ◌≤◌, ◌≡◌, ◌≢◌, refl, inl, inr, Bool, true, false, not, some, List, [], ◌∷◌, Text, text_eq_ne,
  text_eq_differs, Option-cases, arith, if◌then◌else◌, ◌==◌,
}
use redis_project.Keys
use redis_project.Keys.Apart.{user_sessions-ne-user_sessions}
use redis_project.Redis.Expiring.{Fields, contains, HashServer, ExpiringSetServer}
use redis_project.Sessions.{
  Store, owner, get_session, revoke_session, delete_sessions, revoke_tokens, revoke_all_sessions,
}
use redis_project.Sessions.Created.{IsValid}
use redis_project.Sessions.Revoked.{delete_sessions-some, revoke_tokens-lem}

module _ (h : HashServer) (z : ExpiringSetServer) (s : Store h z) (t : ℕ)
    (v : IsValid h z s t) where
  -- The `srem` of `revoke_session` takes no other token out of any set.
  srem_keeps :
      (test : Bool) (user_id other u : ℕ) (token x : Text)
      → t ≤ u
      → x ≢ token
      → contains x (z.smembers s.sets u (Keys.user_sessions other)) ≡ true
      → contains x (
          z.smembers
            (if test then z.srem s.sets t (Keys.user_sessions user_id) token else s.sets)
            u
            (Keys.user_sessions other))
        ≡ true
  srem_keeps false user_id other u token x later ne there = there
  srem_keeps true user_id other u token x later ne there = elim (ℕ_discrete other user_id) [
    | yes same ↦
        rw
          (
            same,
            z.contains_srem s.sets t (Keys.user_sessions user_id) token x u later,
            text_eq_ne x token ne,
            ← same,
          )
          there
    | no differs ↦
        rw
          (z.srem_other s.sets t (Keys.user_sessions user_id) token u (Keys.user_sessions other)
            later (user_sessions-ne-user_sessions other user_id differs))
          there
  ]

  other_found :
      (token : Text) (u : ℕ) (x : Text) (fields : Fields)
      → t ≤ u
      → h.hgetall (h.del s.hashes t (Keys.session token)) u (Keys.session x) ≡ some fields
      → (x ≢ token) × (h.hgetall s.hashes u (Keys.session x) ≡ some fields)
  other_found token u x fields later found =
      let (before, unlisted) =
        delete_sessions-some h z (token ∷ []) s.hashes t u x fields later
          (unfold delete_sessions in found) in
      (λ e. text_eq_differs x token (unfold contains in (ground arith)) e, before)

  -- Revoking one session keeps the others in their owners' sets.
  pub revoke_session-IsValid : (token : Text) → IsValid h z (revoke_session h z s t token) t
  unfolding revoke_session
  revoke_session-IsValid token = elim (Option-cases (h.hgetall s.hashes t (Keys.session token))) [
    | inl absent ↦ rw (absent, revoke_session) v
    | inr (fields, present) ↦
        rw (present, revoke_session)
          (record {
            owned = λ u x f later found.
                let o = other_found token u x f later found in
                srem_keeps (not (owner fields == 0)) (owner fields) (owner f) u token x later o.0
                  (v.owned u x f later o.1);
            bounded =
                λ u x f later found. v.bounded u x f later (other_found token u x f later found).1;
          })
  ]

  revoke_tokens-IsValid :
      (user_id : ℕ) (l : List Text)
      → z.smembers s.sets t (Keys.user_sessions user_id) ≡ l
      → IsValid h z (revoke_tokens h z s t user_id l).1 t
  unfolding revoke_tokens
  revoke_tokens-IsValid user_id [] e = v
  revoke_tokens-IsValid user_id (y ∷ l) e = record {
    owned = λ u x f later found.
        let r =
          revoke_tokens-lem h z s t user_id u (y ∷ l) x f v e later (unfold get_session in found) in
        rw
          (z.del_other s.sets t (Keys.user_sessions user_id) u (Keys.user_sessions (owner f)) later
            (user_sessions-ne-user_sessions (owner f) user_id r.0))
          (v.owned u x f later (unfold get_session in r.1));
    bounded = λ u x f later found.
        v.bounded u x f later (delete_sessions-some h z (y ∷ l) s.hashes t u x f later found).0;
  }

  -- Revoking all sessions of a user keeps those of others in their owners' sets.
  pub revoke_all_sessions-IsValid :
      (user_id : ℕ) → IsValid h z (revoke_all_sessions h z s t user_id).1 t
  unfolding revoke_all_sessions
  revoke_all_sessions-IsValid user_id = revoke_tokens-IsValid user_id _ refl
