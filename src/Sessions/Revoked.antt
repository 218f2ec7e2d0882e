-- ===== src/Sessions/Revoked.antt =====
-- As every session that can be read is in its user's set, revoking all of them misses none.
use redis_project.Base.{
  ℕ, ◌≤◌, ◌≡◌, ◌≢◌, refl, sym, ap, ◌∙◌, inl, inr, true, false, none, some, List, [], ◌∷◌, Text,
  text_eq, text_eq_sound, text_eq_differs, Bool-cases, Option-cases, arith, length,
}
use redis_project.Keys
use redis_project.Keys.Apart.{session-ne-session}
use redis_project.Redis.Expiring.{Fields, contains, HashServer, ExpiringSetServer}
use redis_project.Sessions.{
  Store, owner, get_session, revoke_session, delete_sessions, revoke_tokens, revoke_all_sessions,
}
use redis_project.Sessions.Created.{IsValid}

module _ (h : HashServer) (z : ExpiringSetServer) where
  -- The loop deletes the hashes of the listed tokens, and adds none.
  pub delete_sessions-some :
      (l : List Text) (s : h.Server) (t u : ℕ) (x : Text) (fields : Fields)
      → t ≤ u
      → h.hgetall (delete_sessions h z s t l) u (Keys.session x) ≡ some fields
      → (h.hgetall s u (Keys.session x) ≡ some fields) × (contains x l ≡ false)
  unfolding delete_sessions contains
  delete_sessions-some [] s t u x fields later found = (found, refl)
  delete_sessions-some (y ∷ l) s t u x fields later found =
      let rest = delete_sessions-some l (h.del s t (Keys.session y)) t u x fields later found in
      elim (Bool-cases (text_eq x y)) [
        | inl same ↦
            let e : Keys.session x ≡ Keys.session y = ap Keys.session (text_eq_sound x y same) in
            let gone =
              ap (h.hgetall (h.del s t (Keys.session y)) u) e
              ∙ h.hgetall_del s t (Keys.session y) u later in
            absurd (cc (sym gone ∙ rest.0))
        | inr other ↦ (
          sym (
                h.del_other s t (Keys.session y) u (Keys.session x) later
                  (session-ne-session x y (text_eq_differs x y other)))
              ∙ rest.0,
          rw (other, rest.1),
        )
      ]

  -- It leaves the hashes of all other tokens.
  delete_sessions_unlisted :
      (l : List Text) (s : h.Server) (t u : ℕ) (x : Text)
      → t ≤ u
      → contains x l ≡ false
      → h.hgetall (delete_sessions h z s t l) u (Keys.session x) ≡ h.hgetall s u (Keys.session x)
  unfolding delete_sessions contains
  delete_sessions_unlisted [] s t u x later e = refl
  delete_sessions_unlisted (y ∷ l) s t u x later e =
      let apart : (text_eq x y ≡ false) × (contains x l ≡ false) = ground arith in
      delete_sessions_unlisted l (h.del s t (Keys.session y)) t u x later apart.1
      ∙ h.del_other s t (Keys.session y) u (Keys.session x) later
          (session-ne-session x y (text_eq_differs x y apart.0))

  module _ (s : Store h z) (t : ℕ) where
    -- A revoked session cannot be read any more, at that moment or later.
    pub get_session-revoke_session :
        (token : Text) (u : ℕ)
        → t ≤ u
        → get_session h z (revoke_session h z s t token) u token ≡ none
    unfolding get_session revoke_session
    get_session-revoke_session token u later =
        elim (Option-cases (h.hgetall s.hashes t (Keys.session token))) [
          | inl absent ↦
              rw (absent, revoke_session)
                (elim (Option-cases (h.hgetall s.hashes u (Keys.session token))) [
                  | inl gone ↦ gone
                  | inr (fields, found) ↦ absurd (
                      cc (
                        sym absent
                        ∙ h.present_before s.hashes t u (Keys.session token) fields later found))
                ])
          | inr (fields, found) ↦
              rw (found, revoke_session) (h.hgetall_del s.hashes t (Keys.session token) u later)
        ]

    pub revoke_tokens-lem :
        (user_id u : ℕ) (l : List Text) (x : Text) (fields : Fields)
        → IsValid h z s t
        → z.smembers s.sets t (Keys.user_sessions user_id) ≡ l
        → t ≤ u
        → get_session h z (revoke_tokens h z s t user_id l).1 u x ≡ some fields
        → (owner fields ≢ user_id) × (get_session h z s u x ≡ some fields)
    unfolding revoke_tokens get_session contains
    revoke_tokens-lem user_id u [] x fields v e later found = (
      λ own.
          let c =
            v.owned t x fields (omega arith)
              (h.present_before s.hashes t u (Keys.session x) fields later found) in
          let d : contains x (z.smembers s.sets t (Keys.user_sessions user_id)) ≡ true =
            rw (← own) c in
          cc (sym d ∙ ap (contains x) e),
      found,
    )
    revoke_tokens-lem user_id u (y ∷ l) x fields v e later found =
        let (before, unlisted) = delete_sessions-some (y ∷ l) s.hashes t u x fields later found in
        (
          λ own.
              let c =
                v.owned t x fields (omega arith)
                  (h.present_before s.hashes t u (Keys.session x) fields later before) in
              let d : contains x (z.smembers s.sets t (Keys.user_sessions user_id)) ≡ true =
                rw (← own) c in
              cc (sym d ∙ ap (contains x) e ∙ unlisted),
          before,
        )

    revoke_tokens_unlisted :
        (user_id u : ℕ) (l : List Text) (x : Text)
        → t ≤ u
        → contains x l ≡ false
        → get_session h z (revoke_tokens h z s t user_id l).1 u x ≡ get_session h z s u x
    unfolding revoke_tokens get_session
    revoke_tokens_unlisted user_id u [] x later e = refl
    revoke_tokens_unlisted user_id u (y ∷ l) x later e =
        delete_sessions_unlisted (y ∷ l) s.hashes t u x later e

    -- In stores where every session that can be read, at that moment or later, is in its owner's
    -- set and ends within its time to live, as any sequence of calls leaves them:
    -- `revoke_all_sessions` returns the number of tokens in the user's set, a session that can
    -- still be read afterwards, at that moment or later, is of another user and could be read
    -- without the call, and every token that is not in the user's set gives what it gives without
    -- the call.
    pub revoke_all_sessions_lem :
        (user_id : ℕ)
        → IsValid h z s t
        → let tokens = z.smembers s.sets t (Keys.user_sessions user_id) in
          let (count, s') = revoke_all_sessions h z s t user_id in
          (count ≡ length tokens)
          × ((u : ℕ) (token : Text) (fields : Fields)
              → t ≤ u
              → get_session h z s' u token ≡ some fields
              → (owner fields ≢ user_id) × (get_session h z s u token ≡ some fields))
          × ((u : ℕ) (token : Text)
              → t ≤ u
              → contains token tokens ≡ false
              → get_session h z s' u token ≡ get_session h z s u token)
    unfolding revoke_all_sessions
    revoke_all_sessions_lem user_id v = (
      counted (z.smembers s.sets t (Keys.user_sessions user_id)),
      λ u token fields later found.
          revoke_tokens-lem user_id u (z.smembers s.sets t (Keys.user_sessions user_id)) token
            fields v refl later found,
      λ u token later unlisted.
          revoke_tokens_unlisted user_id u (z.smembers s.sets t (Keys.user_sessions user_id)) token
            later unlisted,
    )
      where
        counted : (l : List Text) → (revoke_tokens h z s t user_id l).0 ≡ length l
        counted [] = refl
        counted (y ∷ l) = refl
