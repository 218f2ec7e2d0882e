-- ===== src/Tests/Sessions.antt =====
-- Sessions on the sample servers.
use redis_project.Base.{
  ℕ, ◌≤◌, ◌≡◌, ◌≢◌, refl, false, some, [], Text, codes, text_eq, arith, length,
}
use redis_project.Keys
use redis_project.Keys.Decimal.{decimal}
use redis_project.Redis.Expiring.{Fields, field, contains}
use redis_project.Sessions.{
  Store, owner, access_token_ttl_seconds, session_fields, create_session, get_session,
  revoke_session, delete_sessions, revoke_all_sessions,
}
use redis_project.Sessions.Created.{IsValid, create_session-IsValid}
use redis_project.Sessions.Revoked.{revoke_all_sessions_lem}
use redis_project.Sessions.Reach.{here, next, revokes, revokes_all, passes, Reach-IsValid}
use redis_project.Tests.Expiring.{hash_sample, set_sample, no_hashes, no_sets}

abbrev Stores : Type 0
Stores = Store hash_sample set_sample

abbrev empty : Stores
empty = record { hashes = no_hashes; sets = no_sets }

empty-IsValid : IsValid hash_sample set_sample empty 0
empty-IsValid = record {
  owned = λ u token fields later found. cc;
  bounded = λ u token fields later found. absurd (cc);
}

program : Unit {0}
unfolding create_session get_session revoke_session revoke_all_sessions session_fields owner decimal
    field contains text_eq Keys.session Keys.user_sessions access_token_ttl_seconds delete_sessions
program = tt

abbrev one : Stores
unfolding create_session
one = (create_session hash_sample set_sample empty 0 7 [] [] (codes "t1") []).1

abbrev two : Stores
unfolding create_session
two = (create_session hash_sample set_sample one 0 8 [] [] (codes "t2") []).1

one-IsValid : IsValid hash_sample set_sample one 0
unfolding one program
one-IsValid =
    create_session-IsValid hash_sample set_sample empty 0 7 [] [] (codes "t1") [] empty-IsValid refl

two-IsValid : IsValid hash_sample set_sample two 0
unfolding two one program
two-IsValid =
    create_session-IsValid hash_sample set_sample one 0 8 [] [] (codes "t2") [] one-IsValid refl

revoke_all_sessions_lem_example :
    let tokens = set_sample.smembers two.sets 0 (Keys.user_sessions 7) in
    let (sum, s') = revoke_all_sessions hash_sample set_sample two 0 7 in
    (sum ≡ length tokens)
    × ((u : ℕ) (token : Text) (fields : Fields)
        → 0 ≤ u
        → get_session hash_sample set_sample s' u token ≡ some fields
        → (owner fields ≢ 7) × (get_session hash_sample set_sample two u token ≡ some fields))
    × ((u : ℕ) (token : Text)
        → 0 ≤ u
        → contains token tokens ≡ false
        → get_session hash_sample set_sample s' u token
          ≡ get_session hash_sample set_sample two u token)
revoke_all_sessions_lem_example = revoke_all_sessions_lem hash_sample set_sample two 0 7 two-IsValid

-- User 7 logs out of the one session, and then user 8 out of all.
abbrev after : Stores
after = revoke_session hash_sample set_sample two 0 (codes "t1")

Reach-IsValid_example :
    IsValid hash_sample set_sample (revoke_all_sessions hash_sample set_sample after 5 8).1 5
Reach-IsValid_example =
    Reach-IsValid hash_sample set_sample
      (next (next (next here (revokes two 0 (codes "t1"))) (passes after 0 5 (omega arith)))
        (revokes_all after 5 8))
      two-IsValid
