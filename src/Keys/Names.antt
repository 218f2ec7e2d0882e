-- ===== src/Keys/Names.antt =====
-- The names of all keys as data, one constructor for each method or constant of `class K`, and
-- the key that each name stands for.
use mathlib.Core.Bool.{false}
use redis_project.Base.{ℕ, Text, ◌≡◌, none, some, Option, [], ◌∷◌, codes, if◌then◌else◌, ◌==◌}
use redis_project.Keys
use redis_project.Keys.{Day}

pub data Name : Type 0 where
  user_cache post_cache : ℕ → Name
  user_by_username : Text → Name
  post_like_count post_comment_count user_follower_count user_following_count : ℕ → Name
  user_followers user_following post_likers home_feed user_posts : ℕ → Name
  global_recent_feed trending_posts : Name
  trending_bucket : Text → Name
  leaderboard_karma : Name
  notification_stream notification_pubsub notification_unread : ℕ → Name
  session : Text → Name
  user_sessions : ℕ → Name
  rate_limit : Text → Text → Name
  lock : Text → Name
  stream_fanout stream_notifications : Name
  dau : Day → Name
  post_unique_viewers : ℕ → Name
  recent_activity : Name
  user_activity : ℕ → Name

unfoldable pub render : Name → Text
render (user_cache n) = Keys.user_cache n
render (post_cache n) = Keys.post_cache n
render (user_by_username u) = Keys.user_by_username u
render (post_like_count n) = Keys.post_like_count n
render (post_comment_count n) = Keys.post_comment_count n
render (user_follower_count n) = Keys.user_follower_count n
render (user_following_count n) = Keys.user_following_count n
render (user_followers n) = Keys.user_followers n
render (user_following n) = Keys.user_following n
render (post_likers n) = Keys.post_likers n
render (home_feed n) = Keys.home_feed n
render (user_posts n) = Keys.user_posts n
render global_recent_feed = Keys.global_recent_feed
render trending_posts = Keys.trending_posts
render (trending_bucket h) = Keys.trending_bucket h
render leaderboard_karma = Keys.leaderboard_karma
render (notification_stream n) = Keys.notification_stream n
render (notification_pubsub n) = Keys.notification_pubsub n
render (notification_unread n) = Keys.notification_unread n
render (session t) = Keys.session t
render (user_sessions n) = Keys.user_sessions n
render (rate_limit b i) = Keys.rate_limit b i
render (lock r) = Keys.lock r
render stream_fanout = Keys.stream_fanout
render stream_notifications = Keys.stream_notifications
render (dau d) = Keys.dau d
render (post_unique_viewers n) = Keys.post_unique_viewers n
render recent_activity = Keys.recent_activity
render (user_activity n) = Keys.user_activity n

-- Two names with the same key have the same canonical name: usernames are lowered, days printed.
unfoldable pub canonical : Name → Name
canonical (user_by_username u) = user_by_username (Keys.lower u)
canonical (dau d) = dau (Day.text (Keys.isoformat d))
canonical n = n

-- What is left of a text behind a prefix.
unfoldable pub strip : Text → Text → Option Text
strip [] s = some s
strip (c ∷ p) [] = none
strip (c ∷ p) (d ∷ s) = if c == d then strip p s else none

abbrev pub ColonFree : Text → Type 0
ColonFree [] = Unit
ColonFree (c ∷ s) = ((c == 58) ≡ false) × ColonFree s

-- A session token does not begin with `user:`, and a bucket holds no colon. Generated tokens are
-- URL-safe base64, and the middleware's buckets are `read` and `write`.
abbrev pub IsPlain : Name → Type 0
IsPlain (session t) = strip (codes "user:") t ≡ none
IsPlain (rate_limit b i) = ColonFree b
IsPlain _ = Unit
