-- ===== src/Services/Social/Reactions.antt =====
-- The likers and counters of app/services/post_service.py against the tables `likes` and `comments`.
use redis_project.Base.{ℕ, ◌≡◌, sym, ap, ◌∙◌, false, ◌==◌, ◌&&◌, ◌||◌, if◌then◌else◌}
use mathlib.Core.Bool.{and_comm}
use redis_project.Base.Int.{pos}
use redis_project.Backend.{Backend, App}
use redis_project.Database.Tables.{IsLiked, IsUnliked, IsCommented}
use redis_project.Keys
use redis_project.Keys.Apart.{like_count-ne, likers-ne}
use redis_project.Keys.Decimal.{decimal}
use redis_project.Keys.Social.{comment_count-ne, like_count-ne-comment_count}
use redis_project.Redis.Counters.{or_zero}
use redis_project.Redis.Expiring.{contains}
use redis_project.Services.Follow.Mirror.{counted-up, counted-down}
use redis_project.Services.Graph.{
  holds, count_at, holds-sadd, holds-srem, count_at-incr, count_at-decr,
}
use redis_project.Services.Likes.Counted.{liked}
use redis_project.Services.Social.Kept.{ReactionsKept}

module _ (b : Backend) where
  -- A post's set of likers holds the rows of its likes, and its two counters the numbers of its
  -- likes and comments.
  pub record IsReflected (a : App b) : Type 0 where
    pub likers : (x y : ℕ) → holds Keys.post_likers b.sets a.sets y x ≡ b.database.likes a.db x y
    pub like_count :
        (x : ℕ)
        → count_at Keys.post_like_count b.counters a.counters x ≡ pos (b.database.like_count a.db x)
    pub comment_count :
        (x : ℕ)
        → count_at Keys.post_comment_count b.counters a.counters x
          ≡ pos (b.database.comment_count a.db x)

  pub IsReflected-kept : (a a' : App b) → ReactionsKept b a a' → IsReflected a → IsReflected a'
  IsReflected-kept a a' k h = record {
    likers = λ x y. ap (contains (decimal x)) (k.likers y) ∙ h.likers x y ∙ sym (k.rows.likes x y);
    like_count =
        λ x. ap or_zero (k.like_count x) ∙ h.like_count x ∙ ap pos (sym (k.rows.like_count x));
    comment_count = λ x.
        ap or_zero (k.comment_count x) ∙ h.comment_count x ∙ ap pos (sym (k.rows.comment_count x));
  }

  module _ (u p : ℕ) (a : App b) (d : b.database.Db) where
    pub liked-IsReflected :
        (strings : b.strings.Server)
        → IsLiked b.database a.db u p d
        → IsReflected a
        → IsReflected (liked b u p (record a { db = d }) strings)
    liked-IsReflected strings added h = record {
      likers = λ x y.
          holds-sadd Keys.post_likers likers-ne b.sets a.sets p u y x
          ∙ ap (λ t. (y == p && x == u) || t) (h.likers x y)
          ∙ ap (λ t. t || b.database.likes a.db x y) (and_comm (y == p) (x == u))
          ∙ sym (added.likes x y);
      like_count = λ x.
          count_at-incr Keys.post_like_count like_count-ne b.counters a.counters p x
          ∙ counted-up (x == p) _ _ _ (h.like_count x) (added.like_count x);
      comment_count = λ x.
          ap or_zero (
            b.counters.incr_other a.counters (Keys.post_like_count p) (Keys.post_comment_count x)
              (λ e. like_count-ne-comment_count p x (sym e)))
          ∙ h.comment_count x
          ∙ ap pos (sym (added.comment_count x));
    }

    pub unliked-IsReflected :
        IsUnliked b.database a.db u p d
        → IsReflected a
        → IsReflected (record a {
          db = d;
          counters = b.counters.decr a.counters (Keys.post_like_count p);
          sets = b.sets.srem a.sets (Keys.post_likers p) (decimal u);
        })
    unliked-IsReflected removed h = record {
      likers = λ x y.
          holds-srem Keys.post_likers likers-ne b.sets a.sets p u y x
          ∙ ap (λ t. if y == p && x == u then false else t) (h.likers x y)
          ∙ ap (λ t. if t then false else b.database.likes a.db x y) (and_comm (y == p) (x == u))
          ∙ sym (removed.likes x y);
      like_count = λ x.
          count_at-decr Keys.post_like_count like_count-ne b.counters a.counters p x
          ∙ counted-down (x == p) _ _ _ (h.like_count x) (removed.like_count x);
      comment_count = λ x.
          ap or_zero (
            b.counters.decr_other a.counters (Keys.post_like_count p) (Keys.post_comment_count x)
              (λ e. like_count-ne-comment_count p x (sym e)))
          ∙ h.comment_count x
          ∙ ap pos (sym (removed.comment_count x));
    }

    pub commented-IsReflected :
        IsCommented b.database a.db p d
        → IsReflected a
        → IsReflected
            (record a { db = d; counters = b.counters.incr a.counters (Keys.post_comment_count p) })
    commented-IsReflected added h = record {
      likers = λ x y. h.likers x y ∙ sym (added.likes x y);
      like_count = λ x.
          ap or_zero (
            b.counters.incr_other a.counters (Keys.post_comment_count p) (Keys.post_like_count x)
              (like_count-ne-comment_count x p))
          ∙ h.like_count x
          ∙ ap pos (sym (added.like_count x));
      comment_count = λ x.
          count_at-incr Keys.post_comment_count comment_count-ne b.counters a.counters p x
          ∙ counted-up (x == p) _ _ _ (h.comment_count x) (added.comment_count x);
    }
