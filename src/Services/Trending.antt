-- ===== src/Services/Trending.antt =====
-- The reading and pruning of app/services/trending_service.py. Scores, which are floats there, are
-- whole numbers in some small unit.
use redis_project.Base.{ℕ, ◌-◌, List, map, Text}
use redis_project.Backend.{Backend, App}
use redis_project.Base.Int.{pos}
use redis_project.Keys
use redis_project.Redis.Zsets.{Row}
use redis_project.Sessions.{int_of}
pub mod Pruned

-- `(int(pid), float(score))`
abbrev pub read_row : Row → ℕ × ℕ
read_row (pid, score) = (int_of pid, score)

module _ (b : Backend) where
  -- `get_trending`, with a limit of 1 or more.
  unfoldable pub get_trending : ℕ → App b → List (ℕ × ℕ)
  get_trending limit a =
      map read_row (b.zsets.zrevrange a.zsets Keys.trending_posts (pos 0) (pos (limit - 1)))

  -- `prune_trending`, with the threshold as a score. It answers how many rows it has removed.
  unfoldable pub prune_trending : ℕ → App b → ℕ × App b
  prune_trending threshold a =
      let zsets = b.zsets.zremrangebyscore a.zsets Keys.trending_posts (pos 0) (pos threshold) in
      (
        b.zsets.zcard a.zsets Keys.trending_posts - b.zsets.zcard zsets Keys.trending_posts,
        record a { zsets = zsets },
      )
