-- ===== src/Database.antt =====
-- The Postgres tables of app/models that the services write, through SQLAlchemy: each operation is
-- a statement with its commit, and each read is a query.
use redis_project.Base.{ℕ, Bool, Option, List, Text}
pub mod Tables

pub record Post : Type 0 where
  pub id : ℕ
  pub author_id : ℕ
  pub content : Text
  pub created_at : ℕ

pub record Comment : Type 0 where
  pub id : ℕ
  pub post_id : ℕ
  pub author_id : ℕ
  pub content : Text
  pub created_at : ℕ

pub record Notification : Type 0 where
  pub recipient_id : ℕ
  pub actor_id : ℕ
  pub kind : Text
  pub object_type : Text
  pub object_id : ℕ
  pub message : Text

pub record Database : Type 1 where
  pub Db : Type 0
  pub get_post : Db → ℕ → Option Post
  pub insert_post : Db → ℕ → Text → Post × Db
  pub post_count : Db → ℕ → ℕ
  -- The author's posts, as pairs of id and `created_at`.
  pub posts_of : Db → ℕ → List (ℕ × ℕ)
  -- `none` is an IntegrityError, after which the transaction is rolled back.
  pub insert_follow : Db → ℕ → ℕ → Option Db
  -- The number of rows deleted.
  pub delete_follow : Db → ℕ → ℕ → ℕ × Db
  pub follows : Db → ℕ → ℕ → Bool
  pub followers_of : Db → ℕ → List ℕ
  pub follower_count : Db → ℕ → ℕ
  pub following_count : Db → ℕ → ℕ
  pub insert_like : Db → ℕ → ℕ → Option Db
  pub delete_like : Db → ℕ → ℕ → ℕ × Db
  pub likes : Db → ℕ → ℕ → Bool
  pub like_count : Db → ℕ → ℕ
  pub insert_comment : Db → ℕ → ℕ → Text → Comment × Db
  pub comment_count : Db → ℕ → ℕ
  -- A post's comments, at most so many, by falling `created_at`.
  pub select_comments : Db → ℕ → ℕ → List Comment
  -- The ids and times of the newest posts, at most so many, by falling `created_at`.
  pub recent_posts : Db → ℕ → List (ℕ × ℕ)
  pub insert_notification : Db → Notification → Db
  pub notifications : Db → List Notification
