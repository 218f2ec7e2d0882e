-- ===== src/Services/Likes/Counted.antt =====
-- What a like leaves: `like_post` of app/services/post_service.py, whatever holds its lock.
use redis_project.Base.{
  ℕ, ◌/◌, ◌≡◌, refl, ap, ◌∙◌, inl, inr, true, ◌&&◌, ◌||◌, some, Text, ◌==◌, if◌then◌else◌,
  Bool-cases, codes,
}
use redis_project.Backend.{Backend, App}
use redis_project.Database.{Post}
use redis_project.Keys
use redis_project.Keys.Apart.{like_count-ne, likers-ne, like_count-ne-unread}
use redis_project.Keys.Decimal.{decimal}
use redis_project.Lock.{World, new_lock, attempt, acquire_loop, acquire, release, redis_lock}
use redis_project.Redis.Counters.{or_zero, plus_one}
use redis_project.Redis.Strings.{StringServer}
use redis_project.Services.Graph.{holds, count_at, holds-sadd, count_at-incr}
use redis_project.Services.Likes.{
  count_like, like_lock, locked_like, record_like, after_like, like_post, like_message,
}
use redis_project.Services.Notify.{emit_notification}
use redis_project.Services.Notify.Delivery.{emit_notification_lem, emit_notification_other}

module _ (r : StringServer) where
  -- A lock that does not wait runs its body after one attempt, whether or not it has the lock.
  redis_lock-now :
      {A : Type 0} (x : A) (key : Text) (ttl_ms : ℕ) (token : Text) (w : World r)
      → (w' : World r) × (redis_lock r (λ backoff w. w) 1 key ttl_ms 0 token (λ lock w. (x, w)) w
          ≡ some (x, w'))
  unfolding redis_lock acquire acquire_loop new_lock
  redis_lock-now x key ttl_ms token w =
      let lock = new_lock key ttl_ms 0 50 token in
      let (ok, w') = attempt r lock w in
      elim (Bool-cases (attempt r lock w).0) [
        | inl got ↦ (
          (release r (record lock { acquired = true }) w').2,
          rw (got, acquire_loop, acquire, redis_lock) refl,
        )
        | inr missed ↦ (w', rw (missed, acquire_loop, acquire, redis_lock) refl)
      ]

module _ (b : Backend) (user_id post_id : ℕ) where
  -- The state with one like more, and the strings that the lock leaves.
  abbrev pub liked : App b → b.strings.Server → App b
  liked a strings = record a {
    counters = b.counters.incr a.counters (Keys.post_like_count post_id);
    sets = b.sets.sadd a.sets (Keys.post_likers post_id) (decimal user_id);
    strings = strings;
  }

module _ (b : Backend) (user_id post_id : ℕ) (token : Text) where
  pub locked_like-liked :
      (a : App b)
      → (strings : b.strings.Server) × (locked_like b user_id post_id token a
          ≡ some (liked b user_id post_id a strings))
  unfolding locked_like count_like
  locked_like-liked a =
      let now_ms = a.now / 1000 in
      let (w', e) =
        redis_lock-now b.strings {A = b.counters.Server × b.sets.Server}
          (
            b.counters.incr a.counters (Keys.post_like_count post_id),
            b.sets.sadd a.sets (Keys.post_likers post_id) (decimal user_id),
          )
          (like_lock post_id) 2000 token
          (record { server = a.strings; server_now = now_ms; loop_now = now_ms }) in
      (w'.server, rw (e, locked_like) refl)

  -- A like of a post that is there, by a user who has not liked it, always succeeds, whether or not
  -- another like holds the lock: the row is in the table, the post's counter is one higher, the
  -- user is among its likers, and the counters and the likers of other posts are as they were.
  pub like_post_lem :
      (a : App b) (post : Post) (db : b.database.Db)
      → b.database.get_post a.db post_id ≡ some post
      → b.database.insert_like a.db user_id post_id ≡ some db
      → (a' : App b) × (like_post b user_id post_id token a ≡ some (true, a'))
        × (a'.db ≡ db)
        × ((x : ℕ)
            → count_at Keys.post_like_count b.counters a'.counters x ≡ (
                if x == post_id
                then plus_one (count_at Keys.post_like_count b.counters a.counters x)
                else count_at Keys.post_like_count b.counters a.counters x))
        × ((x y : ℕ)
            → holds Keys.post_likers b.sets a'.sets x y
              ≡ ((x == post_id && y == user_id) || holds Keys.post_likers b.sets a.sets x y))
  unfolding like_post after_like record_like
  like_post_lem a post db found inserted =
      let (strings, e) = locked_like-liked (record a { db = db }) in
      let a2 =
        (record_like b post_id post.created_at
          (liked b user_id post_id (record a { db = db }) strings)).1 in
      let (self, sent, same_db, sets, zsets, others) =
        emit_notification_lem b (codes "like") user_id post.author_id (codes "post") post_id
          (like_message user_id) a2 in
      let other =
        emit_notification_other b (codes "like") user_id post.author_id (codes "post") post_id
          (like_message user_id) a2 in
      (
        emit_notification b (codes "like") user_id post.author_id (codes "post") post_id
            (like_message user_id) a2,
        rw (found, inserted, e, like_post, after_like) refl,
        same_db,
        λ x.
            ap or_zero (other (Keys.post_like_count x) (like_count-ne-unread x post.author_id))
            ∙ count_at-incr Keys.post_like_count like_count-ne b.counters a.counters post_id x,
        λ x y. rw sets (holds-sadd Keys.post_likers likers-ne b.sets a.sets post_id user_id x y),
      )
