-- ===== src/Database/Tables.antt =====
-- What the services rely on of the tables: the primary key of `follows` and of `likes` is the pair
-- of ids, the aggregates count rows, and a statement changes the rows of its own table alone.
use redis_project.Base.{
  ℕ, suc, ◌≡◌, true, false, ◌&&◌, ◌||◌, some, ◌==◌, if◌then◌else◌, [], ◌∷◌, Text,
}
use redis_project.Database.{Database, Notification, Post}

module _ (t : Database) where
  -- The table `e` is `d` with the row `(u, v)` beside the others.
  pub record IsAdded (d : t.Db) (u v : ℕ) (e : t.Db) : Type 0 where
    pub follows : (x y : ℕ) → t.follows e x y ≡ ((x == u && y == v) || t.follows d x y)
    pub follower_count :
        (x : ℕ)
        → t.follower_count e x
          ≡ (if x == v then suc (t.follower_count d x) else t.follower_count d x)
    pub following_count :
        (x : ℕ)
        → t.following_count e x
          ≡ (if x == u then suc (t.following_count d x) else t.following_count d x)

  -- The table `e` is `d` without its row `(u, v)`.
  pub record IsRemoved (d : t.Db) (u v : ℕ) (e : t.Db) : Type 0 where
    pub follows :
        (x y : ℕ) → t.follows e x y ≡ (if x == u && y == v then false else t.follows d x y)
    pub follower_count :
        (x : ℕ)
        → t.follower_count d x
          ≡ (if x == v then suc (t.follower_count e x) else t.follower_count e x)
    pub following_count :
        (x : ℕ)
        → t.following_count d x
          ≡ (if x == u then suc (t.following_count e x) else t.following_count e x)

  pub record FollowTable : Type 0 where
    pub insert_lem : (d e : t.Db) (u v : ℕ) → t.insert_follow d u v ≡ some e → IsAdded d u v e
    pub delete_absent :
        (d : t.Db) (u v : ℕ) → t.follows d u v ≡ false → t.delete_follow d u v ≡ (0, d)
    pub delete_rowcount :
        (d : t.Db) (u v : ℕ) → t.follows d u v ≡ true → (t.delete_follow d u v).0 ≡ 1
    pub delete_lem :
        (d : t.Db) (u v : ℕ) → t.follows d u v ≡ true → IsRemoved d u v (t.delete_follow d u v).1

  -- The tables `e` are `d` with a like of the post `p` by the user `u` beside the others.
  pub record IsLiked (d : t.Db) (u p : ℕ) (e : t.Db) : Type 0 where
    pub likes : (x y : ℕ) → t.likes e x y ≡ ((x == u && y == p) || t.likes d x y)
    pub like_count :
        (x : ℕ) → t.like_count e x ≡ (if x == p then suc (t.like_count d x) else t.like_count d x)
    pub comment_count : (x : ℕ) → t.comment_count e x ≡ t.comment_count d x

  -- The tables `e` are `d` without that like.
  pub record IsUnliked (d : t.Db) (u p : ℕ) (e : t.Db) : Type 0 where
    pub likes : (x y : ℕ) → t.likes e x y ≡ (if x == u && y == p then false else t.likes d x y)
    pub like_count :
        (x : ℕ) → t.like_count d x ≡ (if x == p then suc (t.like_count e x) else t.like_count e x)
    pub comment_count : (x : ℕ) → t.comment_count e x ≡ t.comment_count d x

  -- The tables `e` are `d` with a comment on the post `p` beside the others.
  pub record IsCommented (d : t.Db) (p : ℕ) (e : t.Db) : Type 0 where
    pub likes : (x y : ℕ) → t.likes e x y ≡ t.likes d x y
    pub like_count : (x : ℕ) → t.like_count e x ≡ t.like_count d x
    pub comment_count :
        (x : ℕ)
        → t.comment_count e x ≡ (if x == p then suc (t.comment_count d x) else t.comment_count d x)

  -- The rows of `follows` are the same.
  pub record SameFollows (d e : t.Db) : Type 0 where
    pub follows : (x y : ℕ) → t.follows e x y ≡ t.follows d x y
    pub follower_count : (x : ℕ) → t.follower_count e x ≡ t.follower_count d x
    pub following_count : (x : ℕ) → t.following_count e x ≡ t.following_count d x

  -- The rows of `likes` and `comments` are the same.
  pub record SameReactions (d e : t.Db) : Type 0 where
    pub likes : (x y : ℕ) → t.likes e x y ≡ t.likes d x y
    pub like_count : (x : ℕ) → t.like_count e x ≡ t.like_count d x
    pub comment_count : (x : ℕ) → t.comment_count e x ≡ t.comment_count d x

  pub record SocialTables : Type 0 where
    pub follow : FollowTable
    pub followers_of_none :
        (d : t.Db) (v : ℕ) → ((x : ℕ) → t.follows d x v ≡ false) → t.followers_of d v ≡ []
    pub insert_follow_same :
        (d e : t.Db) (u v : ℕ) → t.insert_follow d u v ≡ some e → SameReactions d e
    pub delete_follow_same : (d : t.Db) (u v : ℕ) → SameReactions d (t.delete_follow d u v).1
    pub insert_like_lem : (d e : t.Db) (u p : ℕ) → t.insert_like d u p ≡ some e → IsLiked d u p e
    pub insert_like_same : (d e : t.Db) (u p : ℕ) → t.insert_like d u p ≡ some e → SameFollows d e
    pub delete_like_absent :
        (d : t.Db) (u p : ℕ) → t.likes d u p ≡ false → t.delete_like d u p ≡ (0, d)
    pub delete_like_rowcount :
        (d : t.Db) (u p : ℕ) → t.likes d u p ≡ true → (t.delete_like d u p).0 ≡ 1
    pub delete_like_lem :
        (d : t.Db) (u p : ℕ) → t.likes d u p ≡ true → IsUnliked d u p (t.delete_like d u p).1
    pub delete_like_same : (d : t.Db) (u p : ℕ) → SameFollows d (t.delete_like d u p).1
    pub insert_comment_lem :
        (d : t.Db) (p u : ℕ) (content : Text) → IsCommented d p (t.insert_comment d p u content).1
    pub insert_comment_same :
        (d : t.Db) (p u : ℕ) (content : Text) → SameFollows d (t.insert_comment d p u content).1
    pub insert_post_same :
        (d : t.Db) (u : ℕ) (content : Text)
        → SameFollows d (t.insert_post d u content).1
          × SameReactions d (t.insert_post d u content).1
    pub insert_notification_same :
        (d : t.Db) (n : Notification)
        → SameFollows d (t.insert_notification d n) × SameReactions d (t.insert_notification d n)

  -- A post is found by its primary key, which is new for a new post.
  pub record PostTable : Type 0 where
    pub get_post_id :
        (d : t.Db) (pid : ℕ) (post : Post) → t.get_post d pid ≡ some post → post.id ≡ pid
    pub insert_post_found :
        (d : t.Db) (u : ℕ) (content : Text)
        → let (post, e) = t.insert_post d u content in t.get_post e post.id ≡ some post
    pub insert_post_other :
        (d : t.Db) (u : ℕ) (content : Text) (pid : ℕ) (post : Post)
        → t.get_post d pid ≡ some post
        → t.get_post (t.insert_post d u content).1 pid ≡ some post

  -- A notification is added, and the newest one is read first.
  pub record NotificationTable : Type 0 where
    pub insert_notification_lem :
        (d : t.Db) (n : Notification)
        → t.notifications (t.insert_notification d n) ≡ n ∷ t.notifications d
