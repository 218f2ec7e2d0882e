-- ===== src/Api/Posts.antt =====
-- The likes and comments of app/api/posts.py.
use redis_project.Base.{ℕ, Bool, Option, none, some, List, Text, codes, if◌then◌else◌}
use redis_project.Api.{Site, Web, Reply, ok, http_exception, crashed, with_user}
use redis_project.Api.Users.{target, log_activity}
use redis_project.Backend.{App}
use redis_project.Database.{Comment}
use redis_project.Services.Likes

module _ (p : Site) where
  -- The answer of `like`, whatever `like_post` has done; its lock's fuel does not run out.
  unfoldable pub like_reply : ℕ → ℕ → Option (Bool × App p.backend) → Web p → Reply Text × Web p
  unfolding log_activity target
  like_reply post_id user_id none w = (crashed, w)
  like_reply post_id user_id (some (liked, app)) w = (
    ok (if liked then codes "liked" else codes "already liked"),
    log_activity p user_id (codes "like") (target (codes "post") post_id) (record w { app = app }),
  )

  -- `lock_token` is the token that the lock draws.
  unfoldable pub like : Text → ℕ → Option Text → Web p → Reply Text × Web p
  unfolding like_reply with_user
  like lock_token post_id authorization = with_user p authorization (λ user_id w.
      like_reply post_id user_id (Likes.like_post p.backend user_id post_id lock_token w.app) w)

  unfoldable pub unlike : ℕ → Option Text → Web p → Reply Text × Web p
  unfolding with_user
  unlike post_id authorization = with_user p authorization (λ user_id w.
      let (unliked, app) = Likes.unlike_post p.backend user_id post_id w.app in
      (ok (if unliked then codes "unliked" else codes "not liked"), record w { app = app }))

  unfoldable pub comment_reply :
      ℕ → ℕ → Option Comment × App p.backend → Web p → Reply Comment × Web p
  unfolding log_activity target
  comment_reply post_id user_id (none, app) w =
      (http_exception 404 (codes "post not found"), record w { app = app })
  comment_reply post_id user_id (some c, app) w = (
    ok c,
    log_activity p user_id (codes "comment") (target (codes "post") post_id)
        (record w { app = app }),
  )

  unfoldable pub comment : ℕ → Text → Option Text → Web p → Reply Comment × Web p
  unfolding comment_reply with_user
  comment post_id content authorization = with_user p authorization (λ user_id w.
      comment_reply post_id user_id (Likes.comment_on_post p.backend user_id post_id content w.app)
        w)

  -- A post that is not there has no comments.
  unfoldable pub list_comments : ℕ → Web p → Reply (List Comment)
  list_comments post_id w = ok (Likes.list_comments p.backend post_id 50 w.app)
