-- ===== src/Api/Analytics.antt =====
-- app/api/analytics.py, and the `record_activity` that other routes call.
use redis_project.Base.{ℕ, zero, suc, Option, none, some, List, [], ◌∷◌, Text}
use redis_project.Activity.{Activity, search_recent}
use redis_project.Activity.Daily.{dau_range, post_unique_viewers}
use redis_project.Activity.Karma.{top_leaderboard, user_rank}
use redis_project.Api.{Site, Web, Reply, ok, crashed, with_user}
use redis_project.Keys.{Day}
use redis_project.Redis.Boards.{BoardServer}

-- `[today - timedelta(days=i) for i in range(days - 1, -1, -1)]`
unfoldable pub last_days : {D : Type 0} → (ℕ → D) → ℕ → List D
last_days before zero = []
last_days before (suc i) = before i ∷ last_days before i

module _ (p : Site) where
  -- `dau`; `before i` is the day `i` days ago.
  unfoldable pub dau : (ℕ → Day) → ℕ → Web p → Reply (List (Text × ℕ))
  unfolding last_days
  dau before days w = ok (dau_range p.viewers w.viewers (last_days before days))

  unfoldable pub search : Text → ℕ → Web p → Reply (List Activity)
  search q limit w = elim (search_recent p.library p.lists w.lists q limit 2000) [
    | none ↦ crashed
    | some found ↦ ok found
  ]

  unfoldable pub post_unique : ℕ → Web p → Reply (ℕ × ℕ)
  post_unique post_id w = ok (post_id, post_unique_viewers p.viewers w.viewers post_id)

  module _ (k : BoardServer) (s : k.Server) where
    unfoldable pub leaderboard : ℕ → Reply (List (ℕ × ℕ))
    leaderboard limit = ok (top_leaderboard k s limit)

    unfoldable pub my_rank : Option Text → Web p → Reply (Option ℕ) × Web p
    unfolding with_user
    my_rank authorization = with_user p authorization (λ user_id w. (ok (user_rank k s user_id), w))
