-- ===== src/Services/Social/Printed.antt =====
-- The members of the sets of followers are printed ids.
use redis_project.Base.{
  ℕ, ◌≡◌, sym, ap, ◌∙◌, inl, inr, true, not, ◌&&◌, ◌||◌, Text, text_eq, text_eq_sound, ◌==◌,
  Bool-cases, Option-cases, codes, arith,
}
use native.Mathlib.Decide.{ℕ_discrete}
use redis_project.Backend.{Backend, App, backfill_follower}
use redis_project.Keys
use redis_project.Keys.Apart.{followers-ne, followers-ne-following}
use redis_project.Keys.Decimal.{decimal}
use redis_project.Redis.Expiring.{contains}
use redis_project.Services.Follow.{follow, unfollow, announce, link, unlink, follow_message}
use redis_project.Services.Notify.{publish_job}
use redis_project.Services.Notify.Delivery.{emit_notification_lem}

abbrev pub IsId : Text → Type 0
IsId m = (id : ℕ) × (m ≡ decimal id)

module _ (b : Backend) where
  abbrev pub IsPrinted : b.sets.Server → Type 0
  IsPrinted s =
      (v : ℕ) (m : Text) → contains m (b.sets.smembers s (Keys.user_followers v)) ≡ true → IsId m

  module _ (s : b.sets.Server) (u v : ℕ) (h : IsPrinted s) where
    sadd-IsPrinted : IsPrinted (b.sets.sadd s (Keys.user_followers v) (decimal u))
    sadd-IsPrinted w m e = elim (ℕ_discrete w v) [
      | yes same ↦
          let there : (text_eq m (decimal u)
                || contains m (b.sets.smembers s (Keys.user_followers v)))
              ≡ true =
            sym (b.sets.contains_sadd s (Keys.user_followers v) (decimal u) m)
            ∙ ap
                (λ k. contains m (
                  b.sets.smembers (b.sets.sadd s (Keys.user_followers v) (decimal u))
                    (Keys.user_followers k)))
                (sym same)
            ∙ e in
          elim (Bool-cases (text_eq m (decimal u))) [
            | inl new ↦ (u, text_eq_sound m (decimal u) new)
            | inr old ↦ h v m (ground arith)
          ]
      | no other ↦ h w m (
          sym (
            ap (contains m) (
              b.sets.sadd_other s (Keys.user_followers v) (decimal u) (Keys.user_followers w)
                (followers-ne w v other)))
          ∙ e)
    ]

    srem-IsPrinted : IsPrinted (b.sets.srem s (Keys.user_followers v) (decimal u))
    srem-IsPrinted w m e = elim (ℕ_discrete w v) [
      | yes same ↦
          let there : (not (text_eq m (decimal u))
                && contains m (b.sets.smembers s (Keys.user_followers v)))
              ≡ true =
            sym (b.sets.contains_srem s (Keys.user_followers v) (decimal u) m)
            ∙ ap
                (λ k. contains m (
                  b.sets.smembers (b.sets.srem s (Keys.user_followers v) (decimal u))
                    (Keys.user_followers k)))
                (sym same)
            ∙ e in
          h v m (ground arith)
      | no other ↦ h w m (
          sym (
            ap (contains m) (
              b.sets.srem_other s (Keys.user_followers v) (decimal u) (Keys.user_followers w)
                (followers-ne w v other)))
          ∙ e)
    ]

  -- Only the members of the sets of followers count.
  pub IsPrinted-same :
      (s s' : b.sets.Server)
      → ((v : ℕ)
          → b.sets.smembers s' (Keys.user_followers v) ≡ b.sets.smembers s (Keys.user_followers v))
      → IsPrinted s
      → IsPrinted s'
  IsPrinted-same s s' same h v m e = h v m (sym (ap (contains m) (same v)) ∙ e)

  module _ (u v : ℕ) (a : App b) (h : IsPrinted a.sets) where
    link-IsPrinted : IsPrinted (link b u v a).sets
    unfolding link
    link-IsPrinted =
        let s = b.sets.sadd a.sets (Keys.user_following u) (decimal v) in
        sadd-IsPrinted s u v (
          IsPrinted-same a.sets s
            (λ w.
              b.sets.sadd_other a.sets (Keys.user_following u) (decimal v) (Keys.user_followers w)
                (followers-ne-following w u))
            h)

    unlink-IsPrinted : IsPrinted (unlink b u v a).sets
    unfolding unlink
    unlink-IsPrinted =
        let s = b.sets.srem a.sets (Keys.user_following u) (decimal v) in
        srem-IsPrinted s u v (
          IsPrinted-same a.sets s
            (λ w.
              b.sets.srem_other a.sets (Keys.user_following u) (decimal v) (Keys.user_followers w)
                (followers-ne-following w u))
            h)

  module _ (u v : ℕ) (a : App b) (h : IsPrinted a.sets) where
    pub follow-IsPrinted : IsPrinted (follow b u v a).1.sets
    unfolding follow announce publish_job
    follow-IsPrinted = elim (Bool-cases (u == v)) [
      | inl same ↦ rw (same, follow) h
      | inr other ↦ elim (Option-cases (b.database.insert_follow a.db u v)) [
        | inl refused ↦ rw (other, refused, follow) h
        | inr (d, inserted) ↦
            let a1 = link b u v (record a { db = d }) in
            let a2 = (publish_job b Keys.stream_fanout (backfill_follower u v) a1).1 in
            let (self, sent, db, sets, zsets, strings) =
              emit_notification_lem b (codes "follow") u v (codes "user") v (follow_message u) a2 in
            rw (other, inserted, follow, sets) (link-IsPrinted u v (record a { db = d }) h)
      ]
    ]

    pub unfollow-IsPrinted : IsPrinted (unfollow b u v a).1.sets
    unfolding unfollow
    unfollow-IsPrinted = elim (Bool-cases ((b.database.delete_follow a.db u v).0 == 0)) [
      | inl nothing ↦ rw (nothing, unfollow) h
      | inr deleted ↦
          rw (deleted, unfollow)
            (unlink-IsPrinted u v (record a { db = (b.database.delete_follow a.db u v).1 }) h)
    ]
