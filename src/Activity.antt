-- ===== src/Activity.antt =====
-- The activity log of app/services/analytics_service.py.
use redis_project.Base.{
  ℕ, ◌+◌, ◌-◌, ◌==◌, Bool, true, false, ◌||◌, Option, none, some, List, [], ◌∷◌, ◌++◌, Text, codes,
  leb, text_eq, length, take, if◌then◌else◌,
}
use mathlib.Core.Option
use redis_project.Base.Int.{pos, negsuc}
use redis_project.Keys
use redis_project.Redis.Lists.{ListServer}
pub mod Daily
pub mod Karma
pub mod Log
pub mod Search

-- `_RECENT_ACTIVITY_MAX`
unfoldable pub recent_activity_max : ℕ
recent_activity_max = 10000

-- An entry of the log. The time is a text in the ISO format.
pub record Activity : Type 0 where
  pub ts : Text
  pub user_id : ℕ
  pub kind : Text
  pub target : Text

-- JSON by orjson, and `str.lower`.
pub record Library : Type 0 where
  pub dumps : Activity → Text
  pub loads : Text → Option Activity
  pub lower : Text → Text

-- `q in s`
unfoldable pub occurs_in : Text → Text → Bool
occurs_in q [] = text_eq q []
occurs_in q (c ∷ s) = text_eq (take (length q) (c ∷ s)) q || occurs_in q s

module _ (o : Library) (g : ListServer) where
  open g use {Server, lrange, lpush, ltrim}

  -- The pipeline of `record_activity`.
  unfoldable pub log_activity : Server → ℕ → Text → Server
  unfolding recent_activity_max
  log_activity s user_id payload =
      let s1 =
        ltrim (lpush s Keys.recent_activity payload) Keys.recent_activity recent_activity_max in
      ltrim (lpush s1 (Keys.user_activity user_id) payload) (Keys.user_activity user_id) 500

  unfoldable pub record_activity : Server → Text → ℕ → Text → Text → Server
  unfolding log_activity
  record_activity s now user_id kind target =
      log_activity s user_id
        (o.dumps (record { ts = now; user_id = user_id; kind = kind; target = target }))

  -- The loop of `search_recent`, with the number of entries that it has found; it stops once that
  -- is the limit. `none` is the exception for an entry that is no JSON.
  unfoldable pub scan_rows : Text → ℕ → ℕ → List Text → Option (List Activity)
  unfolding occurs_in
  scan_rows q limit found [] = some []
  scan_rows q limit found (raw ∷ rows) =
      let skipped = scan_rows q limit found rows in
      let rest = scan_rows q limit (found + 1) rows in
      if occurs_in q (o.lower raw)
      then (elim (o.loads raw) [
        | none ↦ none
        | some entry ↦
            if leb limit (found + 1)
            then some (entry ∷ [])
            else Option.map (λ out. entry ∷ out) rest
      ])
      else skipped

  -- A scan of 0 rows asks for the rows 0 to -1, which are all.
  unfoldable pub search_recent : Server → Text → ℕ → ℕ → Option (List Activity)
  unfolding scan_rows
  search_recent s query limit scan =
      scan_rows (o.lower query) limit 0
        (lrange s Keys.recent_activity (if scan == 0 then negsuc 0 else pos (scan - 1)))
