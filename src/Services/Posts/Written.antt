-- ===== src/Services/Posts/Written.antt =====
-- Where a new post goes.
use redis_project.Base.{
  ℕ, ◌+◌, ◌*◌, ◌/◌, ◌≤◌, ◌<◌, ◌≡◌, refl, inl, inr, true, false, some, Text, lt→ltb, Bool-cases,
  arith,
}
use redis_project.Backend.{Backend, App, fanout_post}
use redis_project.Database.{Post}
use redis_project.Feed.{is_celebrity}
use redis_project.Keys
use redis_project.Redis.Strings.{StringServer}
use redis_project.Services.Likes.{record_post_created}
use redis_project.Services.Notify.{publish_job}
use redis_project.Services.Notify.Delivery.{Newest, xadd-Newest}
use redis_project.Services.Posts.{post_cache_ttl, publish_post, enqueue_fanout, create_post}

get_set_alive :
    (r : StringServer) (s : r.Server) (t ttl : ℕ) (k v : Text) (u : ℕ)
    → t ≤ u
    → u < t + ttl
    → r.get (r.set s t k v (some ttl)) u k ≡ some v
get_set_alive r s t ttl k v u later soon =
    rw (r.get_set s t k v ttl u later, lt→ltb u (t + ttl) soon) refl

module _ (b : Backend) (post_json : b.database.Db → Post → Text) (author_id : ℕ) (content : Text)
    (a : App b) where
  -- A new post is a row of the table, its JSON is cached for ten minutes, and its fan-out is the
  -- newest job of the fan-out workers exactly if its author is no celebrity by the counter of
  -- followers; for a celebrity no stream changes. Counters, sets and messages are left alone.
  pub create_post_lem :
      let (post, a') = create_post b post_json author_id content a in
      let celebrity =
        is_celebrity (b.counters.value a.counters (Keys.user_follower_count author_id)) in
      ((post, a'.db) ≡ b.database.insert_post a.db author_id content)
      × ((u : ℕ)
          → a.now / 1000 ≤ u
          → u < a.now / 1000 + 600000
          → b.strings.get a'.strings u (Keys.post_cache post.id) ≡ some (post_json a'.db post))
      × (celebrity ≡ true → a'.streams ≡ a.streams)
      × (celebrity ≡ false
          → (id : Text) × Newest
              (b.streams.entries a'.streams Keys.stream_fanout)
              id
              (b.jobs.dumps (fanout_post post.id author_id post.created_at)))
      × (a'.counters ≡ a.counters)
      × (a'.sets ≡ a.sets)
      × (a'.published ≡ a.published)
  unfolding create_post publish_post enqueue_fanout record_post_created publish_job post_cache_ttl
  create_post_lem =
      elim (Bool-cases
        (is_celebrity (b.counters.value a.counters (Keys.user_follower_count author_id)))) [
          | inl celebrity ↦
              rw (celebrity, create_post, enqueue_fanout)
                (
                  refl,
                  get_set_alive b.strings a.strings (a.now / 1000) 600000 _ _,
                  λ e. refl,
                  λ e. cc,
                  refl,
                  refl,
                  refl,
                )
          | inr ordinary ↦
              rw (ordinary, create_post, enqueue_fanout)
                (
                  refl,
                  get_set_alive b.strings a.strings (a.now / 1000) 600000 _ _,
                  λ e. cc,
                  λ e. (_, xadd-Newest b a.streams Keys.stream_fanout _ 100000 (omega arith)),
                  refl,
                  refl,
                  refl,
                )
        ]

  -- Of the strings, a new post writes its cached JSON alone, and no time passes.
  pub create_post-strings :
      let (post, a') = create_post b post_json author_id content a in
      (a'.strings
        ≡ b.strings.set a.strings
            (a.now / 1000)
            (Keys.post_cache post.id)
            (post_json (b.database.insert_post a.db author_id content).1 post)
            (some (1000 * post_cache_ttl)))
      × (a'.now ≡ a.now)
  unfolding create_post publish_post enqueue_fanout record_post_created publish_job
  create_post-strings =
      elim (Bool-cases
        (is_celebrity (b.counters.value a.counters (Keys.user_follower_count author_id)))) [
          | inl celebrity ↦ rw (celebrity, create_post, enqueue_fanout) (refl, refl)
          | inr ordinary ↦ rw (ordinary, create_post, enqueue_fanout) (refl, refl)
        ]
