-- ===== src/Activity/Karma.antt =====
-- The leaderboard of app/services/analytics_service.py.
use redis_project.Base.{ℕ, ◌-◌, Option, List, map, Text}
use redis_project.Keys
use redis_project.Keys.Decimal.{decimal}
use redis_project.Redis.Boards.{BoardServer}
use redis_project.Sessions.{int_of}
pub mod Rank

-- `(int(uid), float(score))`
abbrev pub read_row : Text × ℕ → ℕ × ℕ
read_row (uid, score) = (int_of uid, score)

module _ (k : BoardServer) where
  -- `add_karma`, of a positive number.
  unfoldable pub add_karma : k.Server → ℕ → ℕ → ℕ × k.Server
  add_karma s user_id delta = k.zincrby s Keys.leaderboard_karma delta (decimal user_id)

  -- `top_leaderboard`, with a limit of 1 or more.
  unfoldable pub top_leaderboard : k.Server → ℕ → List (ℕ × ℕ)
  top_leaderboard s limit = map read_row (k.zrevrange s Keys.leaderboard_karma (limit - 1))

  unfoldable pub user_rank : k.Server → ℕ → Option ℕ
  user_rank s user_id = k.zrevrank s Keys.leaderboard_karma (decimal user_id)
