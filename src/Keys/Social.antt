-- ===== src/Keys/Social.antt =====
-- The keys of the social graph and those of posts are different.
use redis_project.Base.{ℕ, ◌≢◌}
use redis_project.Keys
use redis_project.Keys.Apart.{render-injective}
use redis_project.Keys.Names.{Name, render, canonical}

module _ (a b : ℕ) where
  pub likers-ne-followers : Keys.post_likers a ≢ Keys.user_followers b
  unfolding render canonical
  likers-ne-followers e = cc (render-injective (Name.post_likers a) (Name.user_followers b) tt tt e)

  pub likers-ne-following : Keys.post_likers a ≢ Keys.user_following b
  unfolding render canonical
  likers-ne-following e = cc (render-injective (Name.post_likers a) (Name.user_following b) tt tt e)

  pub like_count-ne-follower_count : Keys.post_like_count a ≢ Keys.user_follower_count b
  unfolding render canonical
  like_count-ne-follower_count e =
      cc (render-injective (Name.post_like_count a) (Name.user_follower_count b) tt tt e)

  pub like_count-ne-following_count : Keys.post_like_count a ≢ Keys.user_following_count b
  unfolding render canonical
  like_count-ne-following_count e =
      cc (render-injective (Name.post_like_count a) (Name.user_following_count b) tt tt e)

  pub like_count-ne-comment_count : Keys.post_like_count a ≢ Keys.post_comment_count b
  unfolding render canonical
  like_count-ne-comment_count e =
      cc (render-injective (Name.post_like_count a) (Name.post_comment_count b) tt tt e)

  pub comment_count-ne-follower_count : Keys.post_comment_count a ≢ Keys.user_follower_count b
  unfolding render canonical
  comment_count-ne-follower_count e =
      cc (render-injective (Name.post_comment_count a) (Name.user_follower_count b) tt tt e)

  pub comment_count-ne-following_count : Keys.post_comment_count a ≢ Keys.user_following_count b
  unfolding render canonical
  comment_count-ne-following_count e =
      cc (render-injective (Name.post_comment_count a) (Name.user_following_count b) tt tt e)

  pub comment_count-ne-unread : Keys.post_comment_count a ≢ Keys.notification_unread b
  unfolding render canonical
  comment_count-ne-unread e =
      cc (render-injective (Name.post_comment_count a) (Name.notification_unread b) tt tt e)

  pub comment_count-ne : a ≢ b → Keys.post_comment_count a ≢ Keys.post_comment_count b
  unfolding render canonical
  comment_count-ne h e =
      h (cc (render-injective (Name.post_comment_count a) (Name.post_comment_count b) tt tt e))

  pub post_cache-ne : a ≢ b → Keys.post_cache a ≢ Keys.post_cache b
  unfolding render canonical
  post_cache-ne h e = h (cc (render-injective (Name.post_cache a) (Name.post_cache b) tt tt e))
