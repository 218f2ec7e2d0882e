-- ===== src/Services/Social/Comments.antt =====
-- Comments and the counter reset of app/services/post_service.py on the counters, and on the follows.
use redis_project.Base.{ℕ, refl, sym, ap, ◌∙◌, inl, inr, Text, codes, Option-cases}
use redis_project.Base.Int.{pos}
use redis_project.Backend.{Backend, App}
use redis_project.Database.Tables.{SocialTables}
use redis_project.Keys
use redis_project.Keys.Apart.{like_count-ne}
use redis_project.Keys.Social.{
  comment_count-ne, comment_count-ne-follower_count, comment_count-ne-following_count,
  like_count-ne-comment_count, like_count-ne-follower_count, like_count-ne-following_count,
}
use redis_project.Redis.Counters.{or_zero}
use redis_project.Services.Likes.{comment_on_post, bootstrap_post_counter, comment_message}
use redis_project.Services.Graph.{count_at-set}
use redis_project.Services.Social.Kept.{
  FollowsKept, FollowsKept-trans, FollowsKept-else, emit_notification-FollowsKept,
  emit_notification-ReactionsKept, same_follows,
}
use redis_project.Services.Social.Reactions.{IsReflected, IsReflected-kept, commented-IsReflected}

module _ (b : Backend) where
  module _ (tables : SocialTables b.database) (u p : ℕ) (a : App b) where
    pub comment_on_post-IsReflected :
        (content : Text) → IsReflected b a → IsReflected b (comment_on_post b u p content a).1
    unfolding comment_on_post
    comment_on_post-IsReflected content h = elim (Option-cases (b.database.get_post a.db p)) [
      | inl missing ↦ rw (missing, comment_on_post) h
      | inr (post, found) ↦
          let d = (b.database.insert_comment a.db p u content).1 in
          let a1 = record a {
            db = d;
            counters = b.counters.incr a.counters (Keys.post_comment_count p);
          } in
          rw (found, comment_on_post)
            (IsReflected-kept b a1 _
              (emit_notification-ReactionsKept b (codes "comment") u post.author_id (codes "post") p
                (comment_message content) a1)
              (commented-IsReflected b u p a d (tables.insert_comment_lem a.db p u content) h))
    ]

    pub comment_on_post-FollowsKept :
        (content : Text) → FollowsKept b a (comment_on_post b u p content a).1
    unfolding comment_on_post
    comment_on_post-FollowsKept content = elim (Option-cases (b.database.get_post a.db p)) [
      | inl missing ↦
          rw (missing, comment_on_post) (FollowsKept-else b a a (same_follows b a.db) refl refl)
      | inr (post, found) ↦
          let d = (b.database.insert_comment a.db p u content).1 in
          let a1 = record a {
            db = d;
            counters = b.counters.incr a.counters (Keys.post_comment_count p);
          } in
          rw (found, comment_on_post)
            (FollowsKept-trans b a a1 _
              (record {
                rows = tables.insert_comment_same a.db p u content;
                following = λ x. refl;
                followers = λ x. refl;
                following_count = λ x.
                    b.counters.incr_other a.counters (Keys.post_comment_count p)
                      (Keys.user_following_count x)
                      (λ e. comment_count-ne-following_count p x (sym e));
                follower_count = λ x.
                    b.counters.incr_other a.counters (Keys.post_comment_count p)
                      (Keys.user_follower_count x)
                      (λ e. comment_count-ne-follower_count p x (sym e));
              })
              (emit_notification-FollowsKept b (codes "comment") u post.author_id (codes "post") p
                (comment_message content) a1))
    ]

  -- The reset sets both counters to what the tables have.
  pub bootstrap_post_counter-IsReflected :
      (p : ℕ) (a : App b) → IsReflected b a → IsReflected b (bootstrap_post_counter b p a)
  unfolding bootstrap_post_counter
  bootstrap_post_counter-IsReflected p a h = elim (Option-cases (b.database.get_post a.db p)) [
    | inl missing ↦ rw (missing, bootstrap_post_counter) h
    | inr (post, found) ↦
        let c =
          b.counters.set a.counters (Keys.post_like_count p) (pos (b.database.like_count a.db p)) in
        rw (found, bootstrap_post_counter)
          (record {
            likers = h.likers;
            like_count = λ x.
                ap or_zero (
                  b.counters.set_other c (Keys.post_comment_count p)
                    (pos (b.database.comment_count a.db p)) (Keys.post_like_count x)
                    (like_count-ne-comment_count x p))
                ∙ count_at-set Keys.post_like_count like_count-ne b.counters a.counters
                    (b.database.like_count a.db) p h.like_count x;
            comment_count =
                count_at-set Keys.post_comment_count comment_count-ne b.counters c
                  (b.database.comment_count a.db) p
                  (λ x.
                    ap or_zero (
                      b.counters.set_other a.counters (Keys.post_like_count p)
                        (pos (b.database.like_count a.db p)) (Keys.post_comment_count x)
                        (λ e. like_count-ne-comment_count p x (sym e)))
                    ∙ h.comment_count x);
          })
  ]

  pub bootstrap_post_counter-FollowsKept :
      (p : ℕ) (a : App b) → FollowsKept b a (bootstrap_post_counter b p a)
  unfolding bootstrap_post_counter
  bootstrap_post_counter-FollowsKept p a = elim (Option-cases (b.database.get_post a.db p)) [
    | inl missing ↦
        rw (missing, bootstrap_post_counter)
          (FollowsKept-else b a a (same_follows b a.db) refl refl)
    | inr (post, found) ↦
        let likes = pos (b.database.like_count a.db p) in
        let comments = pos (b.database.comment_count a.db p) in
        let c = b.counters.set a.counters (Keys.post_like_count p) likes in
        rw (found, bootstrap_post_counter)
          (record {
            rows = same_follows b a.db;
            following = λ x. refl;
            followers = λ x. refl;
            following_count = λ x.
                b.counters.set_other c (Keys.post_comment_count p) comments
                  (Keys.user_following_count x) (λ e. comment_count-ne-following_count p x (sym e))
                ∙ b.counters.set_other a.counters (Keys.post_like_count p) likes
                    (Keys.user_following_count x) (λ e. like_count-ne-following_count p x (sym e));
            follower_count = λ x.
                b.counters.set_other c (Keys.post_comment_count p) comments
                  (Keys.user_follower_count x) (λ e. comment_count-ne-follower_count p x (sym e))
                ∙ b.counters.set_other a.counters (Keys.post_like_count p) likes
                    (Keys.user_follower_count x) (λ e. like_count-ne-follower_count p x (sym e));
          })
  ]
