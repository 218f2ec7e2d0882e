-- ===== src/Keys/Apart.antt =====
-- Different names have different keys.
use redis_project.Base.{ℕ, Text, ◌≡◌, ◌≢◌, sym, ap, ◌∙◌}
use redis_project.Keys
use redis_project.Keys.Names.{Name, render, canonical, IsPlain}
use redis_project.Keys.Decode.{decode, decode-render}

-- Two plain names with the same key are the same name, up to the case of a username and the
-- way a day is given.
pub render-injective :
    (m n : Name) → IsPlain m → IsPlain n → render m ≡ render n → canonical m ≡ canonical n
render-injective m n h k e = cc (sym (decode-render m h) ∙ ap decode e ∙ decode-render n k)

module _ (a b : ℕ) where
  pub home_feed-ne-user_posts : Keys.home_feed a ≢ Keys.user_posts b
  unfolding render canonical
  home_feed-ne-user_posts e = cc (render-injective (Name.home_feed a) (Name.user_posts b) tt tt e)

  pub home_feed-ne-home_feed : a ≢ b → Keys.home_feed a ≢ Keys.home_feed b
  unfolding render canonical
  home_feed-ne-home_feed h e =
      h (cc (render-injective (Name.home_feed a) (Name.home_feed b) tt tt e))

  pub user_sessions-ne-user_sessions : a ≢ b → Keys.user_sessions a ≢ Keys.user_sessions b
  unfolding render canonical
  user_sessions-ne-user_sessions h e =
      h (cc (render-injective (Name.user_sessions a) (Name.user_sessions b) tt tt e))

module _ (a : ℕ) where
  pub global-ne-home_feed : Keys.global_recent_feed ≢ Keys.home_feed a
  unfolding render canonical
  global-ne-home_feed e = cc (render-injective Name.global_recent_feed (Name.home_feed a) tt tt e)

  pub global-ne-user_posts : Keys.global_recent_feed ≢ Keys.user_posts a
  unfolding render canonical
  global-ne-user_posts e = cc (render-injective Name.global_recent_feed (Name.user_posts a) tt tt e)

module _ (a : ℕ) where
  pub recent_activity-ne-user_activity : Keys.recent_activity ≢ Keys.user_activity a
  unfolding render canonical
  recent_activity-ne-user_activity e =
      cc (render-injective Name.recent_activity (Name.user_activity a) tt tt e)

  pub stream_notifications-ne-notification_stream :
      Keys.stream_notifications ≢ Keys.notification_stream a
  unfolding render canonical
  stream_notifications-ne-notification_stream e =
      cc (render-injective Name.stream_notifications (Name.notification_stream a) tt tt e)

  module _ (b : ℕ) where
    pub follower_count-ne-unread : Keys.user_follower_count a ≢ Keys.notification_unread b
    unfolding render canonical
    follower_count-ne-unread e =
        cc (render-injective (Name.user_follower_count a) (Name.notification_unread b) tt tt e)

    pub following_count-ne-unread : Keys.user_following_count a ≢ Keys.notification_unread b
    unfolding render canonical
    following_count-ne-unread e =
        cc (render-injective (Name.user_following_count a) (Name.notification_unread b) tt tt e)

    pub like_count-ne-unread : Keys.post_like_count a ≢ Keys.notification_unread b
    unfolding render canonical
    like_count-ne-unread e =
        cc (render-injective (Name.post_like_count a) (Name.notification_unread b) tt tt e)

    pub follower_count-ne-following_count : Keys.user_follower_count a ≢ Keys.user_following_count b
    unfolding render canonical
    follower_count-ne-following_count e =
        cc (render-injective (Name.user_follower_count a) (Name.user_following_count b) tt tt e)

    pub followers-ne-following : Keys.user_followers a ≢ Keys.user_following b
    unfolding render canonical
    followers-ne-following e =
        cc (render-injective (Name.user_followers a) (Name.user_following b) tt tt e)

    pub follower_count-ne : a ≢ b → Keys.user_follower_count a ≢ Keys.user_follower_count b
    unfolding render canonical
    follower_count-ne h e =
        h (cc (render-injective (Name.user_follower_count a) (Name.user_follower_count b) tt tt e))

    pub following_count-ne : a ≢ b → Keys.user_following_count a ≢ Keys.user_following_count b
    unfolding render canonical
    following_count-ne h e =
        h (
          cc (render-injective (Name.user_following_count a) (Name.user_following_count b) tt tt e))

    pub followers-ne : a ≢ b → Keys.user_followers a ≢ Keys.user_followers b
    unfolding render canonical
    followers-ne h e =
        h (cc (render-injective (Name.user_followers a) (Name.user_followers b) tt tt e))

    pub following-ne : a ≢ b → Keys.user_following a ≢ Keys.user_following b
    unfolding render canonical
    following-ne h e =
        h (cc (render-injective (Name.user_following a) (Name.user_following b) tt tt e))

    pub like_count-ne : a ≢ b → Keys.post_like_count a ≢ Keys.post_like_count b
    unfolding render canonical
    like_count-ne h e =
        h (cc (render-injective (Name.post_like_count a) (Name.post_like_count b) tt tt e))

    pub likers-ne : a ≢ b → Keys.post_likers a ≢ Keys.post_likers b
    unfolding render canonical
    likers-ne h e = h (cc (render-injective (Name.post_likers a) (Name.post_likers b) tt tt e))

    pub notification_stream-ne : a ≢ b → Keys.notification_stream a ≢ Keys.notification_stream b
    unfolding render canonical
    notification_stream-ne h e =
        h (cc (render-injective (Name.notification_stream a) (Name.notification_stream b) tt tt e))

pub session-ne-session : (a b : Text) → a ≢ b → Keys.session a ≢ Keys.session b
unfolding Keys.session
session-ne-session a b h e = h (cc e)
