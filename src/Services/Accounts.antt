-- ===== src/Services/Accounts.antt =====
-- Accounts and passwords: `create_user` and `get_by_username` of app/services/user_service.py, the
-- table of app/models/user.py, app/security.py, and the schemas of app/schemas/user.py.
use redis_project.Base.{ℕ, ◌≡◌, Bool, true, Option, some, [], ◌∷◌, Text}

pub record User : Type 0 where
  pub id : ℕ
  pub username : Text
  pub email : Text
  pub password_hash : Text
  pub display_name : Text
  pub bio : Text
  pub created_at : ℕ

pub record UserCreate : Type 0 where
  pub username : Text
  pub email : Text
  pub password : Text
  pub display_name : Text
  pub bio : Text

pub record UserPublic : Type 0 where
  pub id : ℕ
  pub username : Text
  pub display_name : Text
  pub bio : Text
  pub created_at : ℕ

-- The table `users`, in which a username is unique.
pub record UserTable : Type 1 where
  pub Db : Type 0
  -- The columns username, email, password_hash, display_name and bio; `none` is an IntegrityError,
  -- after which the transaction is rolled back.
  pub insert_user : Db → Text → Text → Text → Text → Text → Option (User × Db)
  pub select_username : Db → Text → Option User
  pub insert_hash :
      (d e : Db) (username email hash display_name bio : Text) (user : User)
      → insert_user d username email hash display_name bio ≡ some (user, e)
      → user.password_hash ≡ hash
  pub select_insert :
      (d e : Db) (username email hash display_name bio : Text) (user : User)
      → insert_user d username email hash display_name bio ≡ some (user, e)
      → select_username e username ≡ some user

-- `CryptContext` of passlib; the salt is random.
pub record CryptContext : Type 0 where
  pub hash : Text → Text → Text
  pub verify : Text → Text → Bool
  pub verify_hash : (salt password : Text) → verify password (hash salt password) ≡ true

-- `jwt.decode` of jose with the settings, at a time in seconds: `none` is a JWTError, and
-- `some none` a payload without a number as its "sub".
pub record Jwt : Type 0 where
  pub decode : ℕ → Text → Option (Option ℕ)

-- `display_name or username`
unfoldable pub shown_name : UserCreate → Text
shown_name new = elim new.display_name [ [] ↦ new.username | c ∷ s ↦ c ∷ s ]

-- `UserPublic.model_validate`
unfoldable pub to_public : User → UserPublic
to_public user = record {
  id = user.id;
  username = user.username;
  display_name = user.display_name;
  bio = user.bio;
  created_at = user.created_at;
}

module _ (u : UserTable) (c : CryptContext) where
  -- `none` is the UsernameTakenError.
  unfoldable pub create_user : Text → UserCreate → u.Db → Option (User × u.Db)
  unfolding shown_name
  create_user salt new db =
      u.insert_user db new.username new.email (c.hash salt new.password) (shown_name new) new.bio
