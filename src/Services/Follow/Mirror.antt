-- ===== src/Services/Follow/Mirror.antt =====
-- The sets and counters of app/services/follow_service.py against the table `follows`.
use redis_project.Base.{
  ℕ, suc, ◌≡◌, refl, sym, ap, ◌∙◌, inl, inr, Bool, true, false, codes, ◌==◌, if◌then◌else◌, ◌&&◌,
  ◌||◌, Bool-cases, Option-cases,
}
use mathlib.Core.Bool.{and_comm}
use redis_project.Base.Int.{ℤ, pos}
use redis_project.Backend.{Backend, App, backfill_follower}
use redis_project.Database.Tables.{FollowTable, IsAdded, IsRemoved}
use redis_project.Keys
use redis_project.Keys.Apart.{
  follower_count-ne, following_count-ne, follower_count-ne-following_count,
  follower_count-ne-unread, following_count-ne-unread, followers-ne, following-ne,
  followers-ne-following,
}
use redis_project.Keys.Decimal.{decimal}
use redis_project.Redis.Expiring.{contains}
use redis_project.Redis.Counters.{or_zero, plus_one, minus_one}
use redis_project.Services.Follow.{follow, unfollow, announce, link, unlink, follow_message}
use redis_project.Services.Graph.{
  holds, count_at, holds-sadd, holds-srem, count_at-incr, count_at-decr,
}
use redis_project.Services.Notify.{publish_job}
use redis_project.Services.Notify.Delivery.{emit_notification_lem, emit_notification_other}

pub counted-up :
    (c : Bool) (z : ℤ) (n m : ℕ)
    → z ≡ pos n
    → m ≡ (if c then suc n else n)
    → (if c then plus_one z else z) ≡ pos m
counted-up true z n m e h = rw (e, h) refl
counted-up false z n m e h = rw (e, h) refl

pub counted-down :
    (c : Bool) (z : ℤ) (n m : ℕ)
    → z ≡ pos n
    → n ≡ (if c then suc m else m)
    → (if c then minus_one z else z) ≡ pos m
counted-down true z n m e h = rw (e, h) refl
counted-down false z n m e h = rw (e, h) refl

module _ (b : Backend) where
  -- The sets hold the rows of the table, from both sides, and the counters their numbers.
  pub record IsMirrored (a : App b) : Type 0 where
    pub following :
        (x y : ℕ) → holds Keys.user_following b.sets a.sets x y ≡ b.database.follows a.db x y
    pub followers :
        (x y : ℕ) → holds Keys.user_followers b.sets a.sets y x ≡ b.database.follows a.db x y
    pub following_count :
        (x : ℕ)
        → count_at Keys.user_following_count b.counters a.counters x
          ≡ pos (b.database.following_count a.db x)
    pub follower_count :
        (x : ℕ)
        → count_at Keys.user_follower_count b.counters a.counters x
          ≡ pos (b.database.follower_count a.db x)

  link-IsMirrored :
      (u v : ℕ) (a : App b) (d : b.database.Db)
      → IsAdded b.database a.db u v d
      → IsMirrored a
      → IsMirrored (link b u v (record a { db = d }))
  unfolding link
  link-IsMirrored u v a d added h =
      let s = b.sets.sadd a.sets (Keys.user_following u) (decimal v) in
      let c = b.counters.incr a.counters (Keys.user_following_count u) in
      record {
        following = λ x y.
            ap (contains (decimal y)) (
              b.sets.sadd_other s (Keys.user_followers v) (decimal u) (Keys.user_following x)
                (λ e. followers-ne-following v x (sym e)))
            ∙ holds-sadd Keys.user_following following-ne b.sets a.sets u v x y
            ∙ ap (λ t. (x == u && y == v) || t) (h.following x y)
            ∙ sym (added.follows x y);
        followers = λ x y.
            holds-sadd Keys.user_followers followers-ne b.sets s v u y x
            ∙ ap (λ l. (y == v && x == u) || contains (decimal x) l)
                (b.sets.sadd_other a.sets (Keys.user_following u) (decimal v)
                  (Keys.user_followers y) (followers-ne-following y u))
            ∙ ap (λ t. (y == v && x == u) || t) (h.followers x y)
            ∙ ap (λ t. t || b.database.follows a.db x y) (and_comm (y == v) (x == u))
            ∙ sym (added.follows x y);
        following_count = λ x.
            ap or_zero (
              b.counters.incr_other c (Keys.user_follower_count v) (Keys.user_following_count x)
                (λ e. follower_count-ne-following_count v x (sym e)))
            ∙ count_at-incr Keys.user_following_count following_count-ne b.counters a.counters u x
            ∙ counted-up (x == u) _ _ _ (h.following_count x) (added.following_count x);
        follower_count = λ x.
            count_at-incr Keys.user_follower_count follower_count-ne b.counters c v x
            ∙ counted-up (x == v) _ _ _
                (ap or_zero (
                    b.counters.incr_other a.counters (Keys.user_following_count u)
                      (Keys.user_follower_count x) (follower_count-ne-following_count x u))
                  ∙ h.follower_count x)
                (added.follower_count x);
      }

  unlink-IsMirrored :
      (u v : ℕ) (a : App b) (d : b.database.Db)
      → IsRemoved b.database a.db u v d
      → IsMirrored a
      → IsMirrored (unlink b u v (record a { db = d }))
  unfolding unlink
  unlink-IsMirrored u v a d removed h =
      let s = b.sets.srem a.sets (Keys.user_following u) (decimal v) in
      let c = b.counters.decr a.counters (Keys.user_following_count u) in
      record {
        following = λ x y.
            ap (contains (decimal y)) (
              b.sets.srem_other s (Keys.user_followers v) (decimal u) (Keys.user_following x)
                (λ e. followers-ne-following v x (sym e)))
            ∙ holds-srem Keys.user_following following-ne b.sets a.sets u v x y
            ∙ ap (λ t. if x == u && y == v then false else t) (h.following x y)
            ∙ sym (removed.follows x y);
        followers = λ x y.
            holds-srem Keys.user_followers followers-ne b.sets s v u y x
            ∙ ap (λ l. if y == v && x == u then false else contains (decimal x) l)
                (b.sets.srem_other a.sets (Keys.user_following u) (decimal v)
                  (Keys.user_followers y) (followers-ne-following y u))
            ∙ ap (λ t. if y == v && x == u then false else t) (h.followers x y)
            ∙ ap (λ t. if t then false else b.database.follows a.db x y)
                (and_comm (y == v) (x == u))
            ∙ sym (removed.follows x y);
        following_count = λ x.
            ap or_zero (
              b.counters.decr_other c (Keys.user_follower_count v) (Keys.user_following_count x)
                (λ e. follower_count-ne-following_count v x (sym e)))
            ∙ count_at-decr Keys.user_following_count following_count-ne b.counters a.counters u x
            ∙ counted-down (x == u) _ _ _ (h.following_count x) (removed.following_count x);
        follower_count = λ x.
            count_at-decr Keys.user_follower_count follower_count-ne b.counters c v x
            ∙ counted-down (x == v) _ _ _
                (ap or_zero (
                    b.counters.decr_other a.counters (Keys.user_following_count u)
                      (Keys.user_follower_count x) (follower_count-ne-following_count x u))
                  ∙ h.follower_count x)
                (removed.follower_count x);
      }

  announce-IsMirrored :
      (u v : ℕ) (a : App b) → IsMirrored (link b u v a) → IsMirrored (announce b u v a)
  unfolding announce publish_job
  announce-IsMirrored u v a h =
      let job = (publish_job b Keys.stream_fanout (backfill_follower u v) (link b u v a)).1 in
      let (self, sent, db, sets, zsets, strings) =
        emit_notification_lem b (codes "follow") u v (codes "user") v (follow_message u) job in
      let other =
        emit_notification_other b (codes "follow") u v (codes "user") v (follow_message u) job in
      record {
        following = λ x y. rw (sets, db) (h.following x y);
        followers = λ x y. rw (sets, db) (h.followers x y);
        following_count = λ x.
            rw (db, other (Keys.user_following_count x) (following_count-ne-unread x v))
              (h.following_count x);
        follower_count = λ x.
            rw (db, other (Keys.user_follower_count x) (follower_count-ne-unread x v))
              (h.follower_count x);
      }

  module _ (table : FollowTable b.database) (u v : ℕ) (a : App b) where
    -- A follow keeps the sets and the counters equal to the table: also where it is refused, and
    -- with all that it publishes.
    pub follow-IsMirrored : IsMirrored a → IsMirrored (follow b u v a).1
    unfolding follow
    follow-IsMirrored h = elim (Bool-cases (u == v)) [
      | inl same ↦ rw (same, follow) h
      | inr other ↦ elim (Option-cases (b.database.insert_follow a.db u v)) [
        | inl refused ↦ rw (other, refused, follow) h
        | inr (d, inserted) ↦
            rw (other, inserted, follow)
              (announce-IsMirrored u v (record a { db = d })
                (link-IsMirrored u v a d (table.insert_lem a.db d u v inserted) h))
      ]
    ]

    -- An unfollow keeps the sets and the counters equal to the table, whether or not there was a
    -- row to delete.
    pub unfollow-IsMirrored : IsMirrored a → IsMirrored (unfollow b u v a).1
    unfolding unfollow
    unfollow-IsMirrored h = elim (Bool-cases (b.database.follows a.db u v)) [
      | inl held ↦
          rw (table.delete_rowcount a.db u v held, unfollow)
            (unlink-IsMirrored u v a (b.database.delete_follow a.db u v).1
              (table.delete_lem a.db u v held) h)
      | inr absent ↦ rw (table.delete_absent a.db u v absent, unfollow) h
    ]
