-- ===== src/Services/Social/Follows.antt =====
-- The calls of app/services/follow_service.py and the backfill of app/services/user_service.py on the
-- follows, and on the likers and counters of posts.
use redis_project.Base.{ℕ, refl, ◌∙◌, inl, inr, ◌==◌, codes, Bool-cases, Option-cases}
use redis_project.Backend.{Backend, App, backfill_follower}
use redis_project.Database.Tables.{SocialTables}
use redis_project.Keys
use redis_project.Keys.Decimal.{decimal}
use redis_project.Keys.Social.{
  comment_count-ne-follower_count, comment_count-ne-following_count, like_count-ne-follower_count,
  like_count-ne-following_count, likers-ne-followers, likers-ne-following,
}
use redis_project.Services.Follow.{follow, unfollow, announce, link, unlink, follow_message}
use redis_project.Services.Notify.{publish_job}
use redis_project.Services.Social.Kept.{
  ReactionsKept, ReactionsKept-trans, ReactionsKept-else, emit_notification-ReactionsKept,
  same_reactions,
}

module _ (b : Backend) where
  module _ (u v : ℕ) (a : App b) where
    link-ReactionsKept : ReactionsKept b a (link b u v a)
    unfolding link
    link-ReactionsKept =
        let s = b.sets.sadd a.sets (Keys.user_following u) (decimal v) in
        let c = b.counters.incr a.counters (Keys.user_following_count u) in
        record {
          rows = same_reactions b a.db;
          likers = λ x.
              b.sets.sadd_other s (Keys.user_followers v) (decimal u) (Keys.post_likers x)
                (likers-ne-followers x v)
              ∙ b.sets.sadd_other a.sets (Keys.user_following u) (decimal v) (Keys.post_likers x)
                  (likers-ne-following x u);
          like_count = λ x.
              b.counters.incr_other c (Keys.user_follower_count v) (Keys.post_like_count x)
                (like_count-ne-follower_count x v)
              ∙ b.counters.incr_other a.counters (Keys.user_following_count u)
                  (Keys.post_like_count x) (like_count-ne-following_count x u);
          comment_count = λ x.
              b.counters.incr_other c (Keys.user_follower_count v) (Keys.post_comment_count x)
                (comment_count-ne-follower_count x v)
              ∙ b.counters.incr_other a.counters (Keys.user_following_count u)
                  (Keys.post_comment_count x) (comment_count-ne-following_count x u);
        }

    unlink-ReactionsKept : ReactionsKept b a (unlink b u v a)
    unfolding unlink
    unlink-ReactionsKept =
        let s = b.sets.srem a.sets (Keys.user_following u) (decimal v) in
        let c = b.counters.decr a.counters (Keys.user_following_count u) in
        record {
          rows = same_reactions b a.db;
          likers = λ x.
              b.sets.srem_other s (Keys.user_followers v) (decimal u) (Keys.post_likers x)
                (likers-ne-followers x v)
              ∙ b.sets.srem_other a.sets (Keys.user_following u) (decimal v) (Keys.post_likers x)
                  (likers-ne-following x u);
          like_count = λ x.
              b.counters.decr_other c (Keys.user_follower_count v) (Keys.post_like_count x)
                (like_count-ne-follower_count x v)
              ∙ b.counters.decr_other a.counters (Keys.user_following_count u)
                  (Keys.post_like_count x) (like_count-ne-following_count x u);
          comment_count = λ x.
              b.counters.decr_other c (Keys.user_follower_count v) (Keys.post_comment_count x)
                (comment_count-ne-follower_count x v)
              ∙ b.counters.decr_other a.counters (Keys.user_following_count u)
                  (Keys.post_comment_count x) (comment_count-ne-following_count x u);
        }

  module _ (tables : SocialTables b.database) (u v : ℕ) (a : App b) where
    pub follow-ReactionsKept : ReactionsKept b a (follow b u v a).1
    unfolding follow announce publish_job
    follow-ReactionsKept = elim (Bool-cases (u == v)) [
      | inl same ↦ rw (same, follow) (ReactionsKept-else b a a (same_reactions b a.db) refl refl)
      | inr other ↦ elim (Option-cases (b.database.insert_follow a.db u v)) [
        | inl refused ↦
            rw (other, refused, follow) (ReactionsKept-else b a a (same_reactions b a.db) refl refl)
        | inr (d, inserted) ↦
            let a0 = record a { db = d } in
            let a1 = link b u v a0 in
            let a2 = (publish_job b Keys.stream_fanout (backfill_follower u v) a1).1 in
            rw (other, inserted, follow)
              (ReactionsKept-trans b a a0 _
                (ReactionsKept-else b a a0 (tables.insert_follow_same a.db d u v inserted) refl
                  refl)
                (ReactionsKept-trans b a0 a1 _ (link-ReactionsKept u v a0) (
                  ReactionsKept-trans b a1 a2 _
                    (ReactionsKept-else b a1 a2 (same_reactions b d) refl refl)
                    (emit_notification-ReactionsKept b (codes "follow") u v (codes "user") v
                      (follow_message u) a2))))
      ]
    ]

    pub unfollow-ReactionsKept : ReactionsKept b a (unfollow b u v a).1
    unfolding unfollow
    unfollow-ReactionsKept =
        let d = (b.database.delete_follow a.db u v).1 in
        let a0 = record a { db = d } in
        let row = ReactionsKept-else b a a0 (tables.delete_follow_same a.db u v) refl refl in
        elim (Bool-cases ((b.database.delete_follow a.db u v).0 == 0)) [
          | inl nothing ↦ rw (nothing, unfollow) row
          | inr deleted ↦
              rw (deleted, unfollow)
                (ReactionsKept-trans b a a0 _ row (unlink-ReactionsKept u v a0))
        ]
