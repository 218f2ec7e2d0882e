-- ===== src/Tests/Social.antt =====
-- A sequence of calls on sample tables.
use redis_project.Base.{refl, true, Text, codes, [], ◌∷◌}
use redis_project.Backend.{App}
use redis_project.Database.{Post}
use redis_project.Redis.Expiring.{contains}
use redis_project.Services.Follow.{follow, unfollow, announce, link}
use redis_project.Services.Likes.{comment_on_post}
use redis_project.Services.Likes.Counted.{like_post_lem}
use redis_project.Services.Notify.{emit_notification, publish_job, publish_event, store_event}
use redis_project.Services.Social.Faithful.{IsFaithful}
use redis_project.Services.Social.Reach.{
  Reach, here, next, Reach-IsFaithful, follows, likes, comments, unfollows,
}
use redis_project.Tests.Cache.{plain}
use redis_project.Tests.Follow.{with_tables, nobody, nobody-IsMirrored, followed}
use redis_project.Tests.Rows.{has, to}
use redis_project.Tests.Tables.{Kept, social, comments_on}

abbrev post_json : Kept → Post → Text
post_json d post = post.content

pub nobody-IsFaithful : IsFaithful with_tables nobody
unfolding has to comments_on contains
nobody-IsFaithful = record {
  mirrored = nobody-IsMirrored;
  reflected = record { likers = λ x y. refl; like_count = λ x. refl; comment_count = λ x. refl };
  printed = λ v m e. absurd (cc e);
}

pub followed-IsFaithful : IsFaithful with_tables followed
followed-IsFaithful =
    Reach-IsFaithful with_tables plain post_json social (next here (follows 1 2 nobody))
      nobody-IsFaithful

abbrev post : Post
post = record { id = 4; author_id = 9; content = []; created_at = 5 }

abbrev liked_rows : Kept
liked_rows = record followed.db { likes = (1, 4) ∷ [] }

-- User 1 follows user 2, likes post 4 and follows no more; in between user 3 comments on the post.
sequence :
    (a : App with_tables) × Reach with_tables plain post_json nobody (unfollow with_tables 1 2 a).1
unfolding has follow emit_notification publish_job publish_event store_event announce link
sequence =
    let (a1, e, rows, counts, members) =
      like_post_lem with_tables 1 4 (codes "t") followed post liked_rows refl refl in
    let a2 = (comment_on_post with_tables 3 4 (codes "hi") a1).1 in
    (
      a2,
      next
          (next (next (next here (follows 1 2 nobody)) (likes 1 4 (codes "t") followed a1 true e))
            (comments 3 4 (codes "hi") a1))
          (unfollows 1 2 a2),
    )

Reach-IsFaithful_example : IsFaithful with_tables (unfollow with_tables 1 2 sequence.0).1
Reach-IsFaithful_example =
    Reach-IsFaithful with_tables plain post_json social sequence.1 nobody-IsFaithful
