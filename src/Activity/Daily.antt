-- ===== src/Activity/Daily.antt =====
-- Active users by day and viewers by post: the HyperLogLogs of app/services/analytics_service.py.
use redis_project.Base.{ℕ, ◌*◌, List, [], ◌∷◌, Text}
use redis_project.Keys
use redis_project.Keys.{Day, isoformat}
use redis_project.Keys.Decimal.{decimal}
use redis_project.Redis.Hyperloglogs.{HyperloglogServer}

-- 90 days
unfoldable pub dau_ttl : ℕ
dau_ttl = 60 * 60 * 24 * 90

module _ (y : HyperloglogServer) where
  open y use {Server, pfcount, pfadd, expire}

  -- `record_active`, on the day that `date.today()` reads.
  unfoldable pub record_active : Server → Day → ℕ → Server
  unfolding dau_ttl
  record_active s today user_id =
      expire (pfadd s (Keys.dau today) (decimal user_id)) (Keys.dau today) dau_ttl

  -- `dau`, of a day that is given.
  unfoldable pub dau : Server → Day → ℕ
  dau s day = pfcount s (Keys.dau day)

  -- `dau_range`. Of a day that is given twice, the Python dictionary keeps one of two equal items.
  unfoldable pub dau_range : Server → List Day → List (Text × ℕ)
  dau_range s [] = []
  dau_range s (day ∷ days) = (isoformat day, pfcount s (Keys.dau day)) ∷ dau_range s days

  unfoldable pub record_post_view : Server → ℕ → ℕ → Server
  record_post_view s post_id user_id = pfadd s (Keys.post_unique_viewers post_id) (decimal user_id)

  unfoldable pub post_unique_viewers : Server → ℕ → ℕ
  post_unique_viewers s post_id = pfcount s (Keys.post_unique_viewers post_id)
