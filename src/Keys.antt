-- ===== src/Keys.antt =====
-- The key names of `class K` in app/redis_layer/keys.py, as the texts that the methods return.
-- Ids are numbers from 0 on, as the database hands them out.
use redis_project.Base.{
  ℕ, Text, codes, ◌+◌, ◌/◌, ◌%◌, ◌++◌, List, [], ◌∷◌, map, ◌&&◌, leb, if◌then◌else◌,
}
pub mod Decimal
pub mod Names
mod Decode
pub mod Apart
pub mod Social
use Decimal.{decimal}

unfoldable pub user_cache : ℕ → Text
user_cache user_id = codes "cache:user:" ++ decimal user_id

unfoldable pub post_cache : ℕ → Text
post_cache post_id = codes "cache:post:" ++ decimal post_id

-- `str.lower` on ASCII, which is all that a username may hold.
unfoldable pub to_lower : ℕ → ℕ
to_lower c = if leb 65 c && leb c 90 then c + 32 else c

unfoldable pub lower : Text → Text
unfolding to_lower
lower = map to_lower

unfoldable pub user_by_username : Text → Text
user_by_username username = codes "cache:user:by_username:" ++ lower username

unfoldable pub post_like_count : ℕ → Text
post_like_count post_id = codes "counter:post:" ++ (decimal post_id ++ codes ":likes")

unfoldable pub post_comment_count : ℕ → Text
post_comment_count post_id = codes "counter:post:" ++ (decimal post_id ++ codes ":comments")

unfoldable pub user_follower_count : ℕ → Text
user_follower_count user_id = codes "counter:user:" ++ (decimal user_id ++ codes ":followers")

unfoldable pub user_following_count : ℕ → Text
user_following_count user_id = codes "counter:user:" ++ (decimal user_id ++ codes ":following")

unfoldable pub user_followers : ℕ → Text
user_followers user_id = codes "social:followers:" ++ decimal user_id

unfoldable pub user_following : ℕ → Text
user_following user_id = codes "social:following:" ++ decimal user_id

unfoldable pub post_likers : ℕ → Text
post_likers post_id = codes "social:post_likers:" ++ decimal post_id

unfoldable pub home_feed : ℕ → Text
home_feed user_id = codes "feed:home:" ++ decimal user_id

unfoldable pub user_posts : ℕ → Text
user_posts user_id = codes "feed:user:" ++ decimal user_id

unfoldable pub global_recent_feed : Text
global_recent_feed = codes "feed:global:recent"

unfoldable pub trending_posts : Text
trending_posts = codes "trending:posts"

unfoldable pub trending_bucket : Text → Text
trending_bucket hour_bucket = codes "trending:bucket:" ++ hour_bucket

unfoldable pub leaderboard_karma : Text
leaderboard_karma = codes "leaderboard:karma"

unfoldable pub notification_stream : ℕ → Text
notification_stream user_id = codes "notif:stream:" ++ decimal user_id

unfoldable pub notification_pubsub : ℕ → Text
notification_pubsub user_id = codes "notif:pub:" ++ decimal user_id

unfoldable pub notification_unread : ℕ → Text
notification_unread user_id = codes "notif:unread:" ++ decimal user_id

unfoldable pub session : Text → Text
session token = codes "session:" ++ token

unfoldable pub user_sessions : ℕ → Text
user_sessions user_id = codes "session:user:" ++ decimal user_id

unfoldable pub rate_limit : Text → Text → Text
rate_limit bucket identity = codes "rl:" ++ (bucket ++ (codes ":" ++ identity))

unfoldable pub lock : Text → Text
lock resource = codes "lock:" ++ resource

unfoldable pub stream_fanout : Text
stream_fanout = codes "jobs:fanout"

unfoldable pub stream_notifications : Text
stream_notifications = codes "jobs:notifications"

-- `date | str`.
pub data Day : Type 0 where
  date : ℕ → ℕ → ℕ → Day
  text : Text → Day

unfoldable pub two_digits : ℕ → Text
two_digits n = (48 + n / 10) ∷ (48 + n % 10) ∷ []

-- `date.isoformat`: a year of four digits, a month and a day of two.
unfoldable pub isoformat : Day → Text
unfolding two_digits
isoformat (date year month day) =
    two_digits (year / 100)
    ++ (two_digits (year % 100)
        ++ (codes "-" ++ (two_digits month ++ (codes "-" ++ two_digits day))))
isoformat (text day) = day

unfoldable pub dau : Day → Text
dau day = codes "analytics:dau:" ++ isoformat day

unfoldable pub post_unique_viewers : ℕ → Text
post_unique_viewers post_id = codes "analytics:post_views:" ++ decimal post_id

unfoldable pub recent_activity : Text
recent_activity = codes "activity:recent"

unfoldable pub user_activity : ℕ → Text
user_activity user_id = codes "activity:user:" ++ decimal user_id
