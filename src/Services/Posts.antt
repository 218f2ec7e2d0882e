-- ===== src/Services/Posts.antt =====
-- `create_post` of app/services/feed_service.py on the state of all stores.
use redis_project.Base.{ℕ, ◌*◌, ◌/◌, some, Text, if◌then◌else◌}
use redis_project.Backend.{Backend, App, fanout_post}
use redis_project.Database.{Post}
use redis_project.Feed.{create_commands, execute, is_celebrity}
use redis_project.Keys
use redis_project.Services.Likes.{record_post_created}
use redis_project.Services.Notify.{publish_job}
pub mod Written

-- `POST_CACHE_TTL`, in seconds
unfoldable pub post_cache_ttl : ℕ
post_cache_ttl = 600

-- The JSON that `_post_out` leads to, from the table of users and the post.
module _ (b : Backend) (post_json : b.database.Db → Post → Text) where
  -- The pipeline of the timelines, and the cached post.
  unfoldable pub publish_post : ℕ → Post → App b → App b
  unfolding post_cache_ttl
  publish_post author_id post a = record a {
    zsets = execute b.zsets a.zsets (create_commands author_id post.id post.created_at);
    strings =
        b.strings.set a.strings (a.now / 1000) (Keys.post_cache post.id) (post_json a.db post)
          (some (1000 * post_cache_ttl));
  }

  -- Fan-out on write, for all but celebrities.
  unfoldable pub enqueue_fanout : ℕ → Post → App b → App b
  enqueue_fanout author_id post a =
      if is_celebrity (b.counters.value a.counters (Keys.user_follower_count author_id))
      then a
      else (publish_job b Keys.stream_fanout (fanout_post post.id author_id post.created_at) a).1

  unfoldable pub create_post : ℕ → Text → App b → Post × App b
  unfolding publish_post enqueue_fanout
  create_post author_id content a =
      let (post, db) = b.database.insert_post a.db author_id content in
      (
        post,
        record_post_created b post.id post.created_at
            (enqueue_fanout author_id post (publish_post author_id post (record a { db = db }))),
      )
