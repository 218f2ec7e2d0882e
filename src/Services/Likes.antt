-- ===== src/Services/Likes.antt =====
-- Likes and comments: app/services/post_service.py, with `record_like` and `record_post_created`
-- of app/services/trending_service.py.
use redis_project.Base.{
  ℕ, ◌/◌, Bool, true, false, Option, none, some, ◌++◌, Text, codes, ltb, ◌==◌, if◌then◌else◌,
  length, take, List,
}
use redis_project.Backend.{Backend, App}
use redis_project.Base.Int.{pos}
use redis_project.Database.{Post, Comment}
use redis_project.Keys
use redis_project.Keys.Decimal.{decimal}
use redis_project.Lock.{RedisLock, World, redis_lock}
use redis_project.Redis.Counters.{or_zero}
use redis_project.Services.Notify.{emit_notification}
pub mod Counted

unfoldable pub like_message : ℕ → Text
like_message user_id = codes "user " ++ decimal user_id ++ codes " liked your post"

-- `(content[:80] + "…") if len(content) > 80 else content`
unfoldable pub comment_message : Text → Text
comment_message content = if ltb 80 (length content) then take 80 content ++ codes "…" else content

-- The name of the lock of `like_post`.
unfoldable pub like_lock : ℕ → Text
like_lock post_id = codes "post:" ++ decimal post_id ++ codes ":like"

module _ (b : Backend) where
  -- The score of a new post, or of a post whose live count has changed.
  unfoldable pub record_post_created : ℕ → ℕ → App b → App b
  record_post_created post_id created_at a = record a {
    zsets =
        b.zsets.zadd a.zsets Keys.trending_posts (decimal post_id)
          (b.trending_score created_at (pos 0) a.now);
  }

  unfoldable pub record_like : ℕ → ℕ → App b → ℕ × App b
  record_like post_id created_at a =
      let likes = or_zero (b.counters.value a.counters (Keys.post_like_count post_id)) in
      let score = b.trending_score created_at likes a.now in
      (score, record a { zsets = b.zsets.zadd a.zsets Keys.trending_posts (decimal post_id) score })

  -- The pipeline under the lock of `like_post`, which runs with the lock or without.
  unfoldable pub count_like :
      ℕ
      → ℕ
      → App b
      → Option RedisLock
      → World b.strings
      → (b.counters.Server × b.sets.Server) × World b.strings
  count_like user_id post_id a lock w = (
    (
      b.counters.incr a.counters (Keys.post_like_count post_id),
      b.sets.sadd a.sets (Keys.post_likers post_id) (decimal user_id),
    ),
    w,
  )

  -- The scope of the lock. Its waiting time is 0, so it makes one attempt and never sleeps. The
  -- server's clock and the event loop's are both given the time of the state.
  unfoldable pub locked_like : ℕ → ℕ → Text → App b → Option (App b)
  unfolding count_like like_lock
  locked_like user_id post_id token a =
      let now_ms = a.now / 1000 in
      elim (redis_lock b.strings (λ backoff w. w) 1 (like_lock post_id) 2000 0 token
        (count_like user_id post_id a)
        (record { server = a.strings; server_now = now_ms; loop_now = now_ms })) [
          | none ↦ none
          | some ((counters, sets), w) ↦
              some (record a { counters = counters; sets = sets; strings = w.server })
        ]

  -- `like_post` once the row is in the table.
  unfoldable pub after_like : ℕ → ℕ → Post → Text → App b → Option (Bool × App b)
  unfolding locked_like record_like like_message
  after_like user_id post_id post token a = elim (locked_like user_id post_id token a) [
    | none ↦ none
    | some a' ↦ some (
      true,
      emit_notification b (codes "like") user_id post.author_id (codes "post") post_id
          (like_message user_id) (record_like post_id post.created_at a').1,
    )
  ]

  -- `none` means that the lock's fuel ran out.
  unfoldable pub like_post : ℕ → ℕ → Text → App b → Option (Bool × App b)
  unfolding after_like
  like_post user_id post_id token a = elim (b.database.get_post a.db post_id) [
    | none ↦ some (false, a)
    | some post ↦ elim (b.database.insert_like a.db user_id post_id) [
      | none ↦ some (false, a)
      | some db ↦ after_like user_id post_id post token (record a { db = db })
    ]
  ]

  unfoldable pub unlike_post : ℕ → ℕ → App b → Bool × App b
  unlike_post user_id post_id a =
      let (rowcount, db) = b.database.delete_like a.db user_id post_id in
      if rowcount == 0 then (false, record a { db = db }) else (
        true,
        record a {
          db = db;
          counters = b.counters.decr a.counters (Keys.post_like_count post_id);
          sets = b.sets.srem a.sets (Keys.post_likers post_id) (decimal user_id);
        },
      )

  unfoldable pub comment_on_post : ℕ → ℕ → Text → App b → Option Comment × App b
  unfolding comment_message
  comment_on_post user_id post_id content a = elim (b.database.get_post a.db post_id) [
    | none ↦ (none, a)
    | some post ↦
        let (c, db) = b.database.insert_comment a.db post_id user_id content in
        (
          some c,
          emit_notification b (codes "comment") user_id post.author_id (codes "post") post_id
              (comment_message content)
              (record a {
                db = db;
                counters = b.counters.incr a.counters (Keys.post_comment_count post_id);
              }),
        )
  ]

  unfoldable pub list_comments : ℕ → ℕ → App b → List Comment
  list_comments post_id limit a = b.database.select_comments a.db post_id limit

  unfoldable pub bootstrap_post_counter : ℕ → App b → App b
  bootstrap_post_counter post_id a = elim (b.database.get_post a.db post_id) [
    | none ↦ a
    | some post ↦ record a {
      counters =
          b.counters.set
            (b.counters.set a.counters (Keys.post_like_count post_id)
              (pos (b.database.like_count a.db post_id)))
            (Keys.post_comment_count post_id) (pos (b.database.comment_count a.db post_id));
    }
  ]
