-- ===== src/Api.antt =====
-- The routes of app/api: their state, their replies, and the dependency that finds the user.
use redis_project.Base.{
  ℕ, ◌/◌, ◌||◌, Option, none, some, [], ◌∷◌, Text, codes, text_eq, take, leb, ◌&&◌, Bool, reverse,
  ◌==◌, if◌then◌else◌,
}
use mathlib.Core.Option
use redis_project.Activity.{Library}
use redis_project.Activity.Daily.{record_active}
use redis_project.Backend.{Backend, App}
use redis_project.Keys
use redis_project.Keys.{Day}
use redis_project.Redis.Expiring.{Fields, field, HashServer, ExpiringSetServer}
use redis_project.Redis.Hyperloglogs.{HyperloglogServer}
use redis_project.Redis.Lists.{ListServer}
use redis_project.Services.Accounts.{UserTable, CryptContext, Jwt}
use redis_project.Sessions.{Store, int_of, get_session}
pub mod Analytics
pub mod Auth
pub mod Feed
pub mod Health
pub mod Notifications
pub mod Posts
pub mod Tokens
pub mod Users

-- All that the routes use.
pub record Site : Type 1 where
  pub backend : Backend
  pub hashes : HashServer
  pub sets : ExpiringSetServer
  pub lists : ListServer
  pub viewers : HyperloglogServer
  pub library : Library
  pub users : UserTable
  pub passwords : CryptContext
  pub jwt : Jwt
  -- The day of a time in seconds, and that time in the ISO format.
  pub day_of : ℕ → Day
  pub iso_of : ℕ → Text

pub record Web (p : Site) : Type 0 where
  pub app : App p.backend
  pub sessions : Store p.hashes p.sets
  pub lists : p.lists.Server
  pub viewers : p.viewers.Server
  pub users : p.users.Db

-- What a route comes to: its result, an HTTPException with its status and detail, or any other
-- exception.
pub data Reply {ℓ} (A : Type ℓ) : Type ℓ where
  ok : A → Reply A
  http_exception : ℕ → Text → Reply A
  crashed : Reply A

-- `str.isspace` of a character.
unfoldable pub is_space : ℕ → Bool
is_space c =
    (leb 9 c && leb c 13)
    || (leb 28 c && leb c 32)
    || c == 133
    || c == 160
    || c == 5760
    || (leb 8192 c && leb c 8202)
    || c == 8232
    || c == 8233
    || c == 8239
    || c == 8287
    || c == 12288

unfoldable pub lstrip : Text → Text
unfolding is_space
lstrip [] = []
lstrip (c ∷ s) = if is_space c then lstrip s else c ∷ s

-- `str.strip`
unfoldable pub strip : Text → Text
unfolding lstrip
strip s = reverse (lstrip (reverse (lstrip s)))

-- `s.split(" ", 1)[1]`, where `" " in s`.
unfoldable pub after_space : Text → Option Text
after_space [] = none
after_space (c ∷ s) = if c == 32 then some s else after_space s

-- The token of an Authorization header. Headers are Latin-1, where only ASCII letters are lowered
-- to ASCII letters.
unfoldable pub bearer_token : Option Text → Option Text
unfolding after_space strip
bearer_token none = none
bearer_token (some authorization) =
    if text_eq (take 7 (Keys.lower authorization)) (codes "bearer ")
    then Option.map strip (after_space authorization)
    else none

-- The state once the clock has come to `now`, with no call in between.
abbrev pub at : {p : Site} → ℕ → Web p → Web p
at now w = record w { app = record w.app { now = now } }

module _ (p : Site) where
  -- The time in seconds.
  unfoldable pub seconds : Web p → ℕ
  seconds w = w.app.now / 1000000

  -- `decode_token` of app/security.py with `int(payload["sub"])` after it.
  unfoldable pub user_of_jwt : Web p → Text → Reply ℕ
  unfolding seconds
  user_of_jwt w token = elim (p.jwt.decode (seconds w) token) [
    | none ↦ http_exception 401 (codes "invalid token")
    | some none ↦ crashed
    | some (some user_id) ↦ ok user_id
  ]

  -- `int(session["user_id"])`
  unfoldable pub user_of_session : Fields → Reply ℕ
  user_of_session session = elim (field (codes "user_id") session) [
    | none ↦ crashed
    | some text ↦ ok (int_of text)
  ]

  unfoldable pub user_of_token : Web p → Text → Reply ℕ
  unfolding user_of_jwt user_of_session seconds
  user_of_token w token = elim (get_session p.hashes p.sets w.sessions (seconds w) token) [
    | none ↦ user_of_jwt w token
    | some session ↦ user_of_session session
  ]

  unfoldable pub stamp_active : Reply ℕ → Web p → Web p
  unfolding seconds
  stamp_active (ok user_id) w = record w {
    viewers = record_active p.viewers w.viewers (p.day_of (seconds w)) user_id;
  }
  stamp_active (http_exception status detail) w = w
  stamp_active crashed w = w

  unfoldable pub current_user_id : Option Text → Web p → Reply ℕ × Web p
  unfolding bearer_token user_of_token stamp_active
  current_user_id authorization w = elim (bearer_token authorization) [
    | none ↦ (http_exception 401 (codes "missing bearer token"), w)
    | some token ↦ (user_of_token w token, stamp_active (user_of_token w token) w)
  ]

  -- A route that depends on `CurrentUser` runs only if that finds a user.
  unfoldable pub depending {ℓ} :
      {A : Type ℓ} → Reply ℕ → (ℕ → Web p → Reply A × Web p) → Web p → Reply A × Web p
  depending (ok user_id) route w = route user_id w
  depending (http_exception status detail) route w = (http_exception status detail, w)
  depending crashed route w = (crashed, w)

  unfoldable pub with_user {ℓ} :
      {A : Type ℓ} → Option Text → (ℕ → Web p → Reply A × Web p) → Web p → Reply A × Web p
  unfolding current_user_id depending
  with_user authorization route w =
      let (user, w') = current_user_id authorization w in depending user route w'
