-- ===== src/Sessions/Created.antt =====
-- Every session that can be read is in its user's set, and so is a new one.
use redis_project.Base.{
  ℕ, ◌+◌, ◌≤◌, ◌<◌, ◌≡◌, ◌≢◌, sym, ap, ◌∙◌, inl, inr, true, ◌||◌, none, some, [], Text, text_eq,
  text_eq_sound, text_eq_differs, Bool-cases, arith, ltb, ltb→lt, lt→ltb, if◌then◌else◌,
}
use mathlib.Core.List.{append-nil}
use mathlib.Core.Path.{subst}
use native.Mathlib.Decide.{ℕ_discrete}
use redis_project.Keys
use redis_project.Keys.Apart.{session-ne-session, user_sessions-ne-user_sessions}
use redis_project.Keys.Decimal.{decimal, number_from-decimal}
use redis_project.Redis.Expiring.{Fields, field, contains, HashServer, ExpiringSetServer}
use redis_project.Sessions.{
  Store, access_token_ttl_seconds, int_of, session_fields, owner, create_session, get_session,
}

pub int_of-decimal : (n : ℕ) → int_of (decimal n) ≡ n
unfolding int_of
int_of-decimal n =
    ap int_of (sym (append-nil (decimal n))) ∙ ap (λ (p : ℕ × Text). p.0) (number_from-decimal n [])

owner-session_fields :
    (user_id : ℕ) (ua ip created_at : Text)
    → owner (session_fields user_id ua ip created_at) ≡ user_id
unfolding owner session_fields field text_eq
owner-session_fields user_id ua ip created_at = int_of-decimal user_id

module _ (h : HashServer) (z : ExpiringSetServer) where
  -- From `t` on, a session that can be read is in its owner's set, and ends within the time to
  -- live of a session that is made at `t`.
  pub record IsValid (s : Store h z) (t : ℕ) : Type 0 where
    pub owned :
        (u : ℕ) (token : Text) (fields : Fields)
        → t ≤ u
        → h.hgetall s.hashes u (Keys.session token) ≡ some fields
        → contains token (z.smembers s.sets u (Keys.user_sessions (owner fields))) ≡ true
    pub bounded :
        (u : ℕ) (token : Text) (fields : Fields)
        → t ≤ u
        → h.hgetall s.hashes u (Keys.session token) ≡ some fields
        → u < t + access_token_ttl_seconds

  pub later-IsValid : {s : Store h z} {t u : ℕ} → t ≤ u → IsValid s t → IsValid s u
  later-IsValid le v = record {
    owned = λ w token fields later found. v.owned w token fields (omega arith) found;
    bounded =
        λ w token fields later found. omega (arith, v.bounded w token fields (omega arith) found);
  }

  module _ (s : Store h z) (t : ℕ) where
    module _ (user_id : ℕ) (ua ip token created_at : Text) where
      -- The session that was made can be read, with its owner, until its time to live is over.
      pub get_session-create_session :
          get_session h z s t token ≡ none
          → (u : ℕ) → t ≤ u
          → get_session h z (create_session h z s t user_id ua ip token created_at).1 u token ≡ (
              if ltb u (t + access_token_ttl_seconds)
              then some (session_fields user_id ua ip created_at)
              else none)
      unfolding create_session get_session
      get_session-create_session fresh u later =
          h.hgetall_expire _ t (Keys.session token) access_token_ttl_seconds u later
          ∙ ap (λ o. if ltb u (t + access_token_ttl_seconds) then o else none)
              (h.hgetall_hset s.hashes t (Keys.session token)
                (session_fields user_id ua ip created_at) fresh)

      other_session :
          (u : ℕ) (x : Text)
          → t ≤ u
          → x ≢ token
          → h.hgetall
              (create_session h z s t user_id ua ip token created_at).1.hashes
              u
              (Keys.session x)
            ≡ h.hgetall s.hashes u (Keys.session x)
      unfolding create_session
      other_session u x later differs =
          let ne = session-ne-session x token differs in
          h.expire_other _ t (Keys.session token) access_token_ttl_seconds u (Keys.session x) later
            ne
          ∙ h.hset_other s.hashes t (Keys.session token) _ u (Keys.session x) later ne

      own_set :
          (u : ℕ) (x : Text)
          → t ≤ u
          → u < t + access_token_ttl_seconds
          → contains x (
              z.smembers
                (create_session h z s t user_id ua ip token created_at).1.sets
                u
                (Keys.user_sessions user_id))
            ≡ (text_eq x token || contains x (z.smembers s.sets t (Keys.user_sessions user_id)))
      unfolding create_session
      own_set u x later before =
          rw
            (
              z.smembers_expire (z.sadd s.sets t (Keys.user_sessions user_id) token) t
                  (Keys.user_sessions user_id) access_token_ttl_seconds u later,
              lt→ltb u (t + access_token_ttl_seconds) before,
            )
            (z.contains_sadd s.sets t (Keys.user_sessions user_id) token x)

      other_set :
          (u other : ℕ)
          → t ≤ u
          → other ≢ user_id
          → z.smembers
              (create_session h z s t user_id ua ip token created_at).1.sets
              u
              (Keys.user_sessions other)
            ≡ z.smembers s.sets u (Keys.user_sessions other)
      unfolding create_session
      other_set u other later differs =
          let ne = user_sessions-ne-user_sessions other user_id differs in
          z.expire_other _ t (Keys.user_sessions user_id) access_token_ttl_seconds u
            (Keys.user_sessions other) later ne
          ∙ z.sadd_other s.sets t (Keys.user_sessions user_id) token u (Keys.user_sessions other)
              later ne

      owned_new :
          (u : ℕ) (fields : Fields)
          → get_session h z s t token ≡ none
          → t ≤ u
          → get_session h z (create_session h z s t user_id ua ip token created_at).1 u token
            ≡ some fields
          → (u < t + access_token_ttl_seconds) × (owner fields ≡ user_id)
      owned_new u fields fresh later found =
          let e = sym (get_session-create_session fresh u later) ∙ found in
          elim (Bool-cases (ltb u (t + access_token_ttl_seconds))) [
            | inl before ↦
                let f : session_fields user_id ua ip created_at ≡ fields = ground arith in
                (
                  ltb→lt _ _ before,
                  ap owner (sym f) ∙ owner-session_fields user_id ua ip created_at,
                )
            | inr over ↦ absurd (ground arith)
          ]

      owned_old :
          IsValid s t
          → (u : ℕ) (x : Text) (fields : Fields) → t ≤ u
          → h.hgetall s.hashes u (Keys.session x) ≡ some fields
          → contains x (
              z.smembers
                (create_session h z s t user_id ua ip token created_at).1.sets
                u
                (Keys.user_sessions (owner fields)))
            ≡ true
      owned_old v u x fields later found = elim (ℕ_discrete (owner fields) user_id) [
        | yes same ↦
            let old =
              v.owned t x fields (omega arith)
                (h.present_before s.hashes t u (Keys.session x) fields later found) in
            rw (same, own_set u x later (v.bounded u x fields later found), ← same) (ground arith)
        | no differs ↦
            rw (other_set u (owner fields) later differs) (v.owned u x fields later found)
      ]

      -- Making a session keeps every session that can be read in its owner's set.
      pub create_session-IsValid :
          IsValid s t
          → get_session h z s t token ≡ none
          → IsValid (create_session h z s t user_id ua ip token created_at).1 t
      unfolding get_session
      create_session-IsValid v fresh = record {
        owned = λ u x fields later found. elim (Bool-cases (text_eq x token)) [
          | inl own ↦
              let e = text_eq_sound x token own in
              let n = owned_new u fields fresh later (
                subst
                  (λ y.
                    h.hgetall (create_session h z s t user_id ua ip token created_at).1.hashes u
                      (Keys.session y)
                    ≡ some fields)
                  e found) in
              rw (n.1, own_set u x later n.0, own)
          | inr other ↦
              let ne = λ (e : x ≡ token). absurd {A = ⊥} (text_eq_differs x token other e) in
              owned_old v u x fields later (sym (other_session u x later ne) ∙ found)
        ];
        bounded = λ u x fields later found. elim (Bool-cases (text_eq x token)) [
          | inl own ↦
              let e = text_eq_sound x token own in
              (owned_new u fields fresh later (
                subst
                  (λ y.
                    h.hgetall (create_session h z s t user_id ua ip token created_at).1.hashes u
                      (Keys.session y)
                    ≡ some fields)
                  e found)).0
          | inr other ↦
              let ne = λ (e : x ≡ token). absurd {A = ⊥} (text_eq_differs x token other e) in
              v.bounded u x fields later (sym (other_session u x later ne) ∙ found)
        ];
      }
