-- ===== src/Feed.antt =====
-- The timelines of app/services/feed_service.py: writing a post into them, fan-out, backfill, and
-- the merge on reading. Scores are timestamps, as whole microseconds since 1970.
use redis_project.Base.{
  ℕ, zero, suc, ◌+◌, ◌-◌, Bool, true, false, Option, none, some, List, [], ◌∷◌, ◌++◌, map, Text,
  ltb, leb, ◌==◌, if◌then◌else◌, length, take, keep,
}
use Prim.Native.Nat.{max}
use mathlib.Core.Option
use redis_project.Base.Int.{ℤ, pos, negsuc}
use redis_project.Keys
use redis_project.Keys.Decimal.{decimal, number_from}
use redis_project.Redis.Zsets.{Row, ZsetServer}
use redis_project.Redis.Counters.{CounterServer, or_zero}
use redis_project.Redis.Sets.{SetServer}
pub mod Trim
pub mod Fanout
pub mod Merge
pub mod Top
pub mod Home

-- The settings of app/config.py.
unfoldable pub feed_max_size : ℕ
feed_max_size = 1000

unfoldable pub fanout_batch_size : ℕ
fanout_batch_size = 500

unfoldable pub celebrity_follower_threshold : ℕ
celebrity_follower_threshold = 10000

-- `int(member)` for a member that is a printed number.
unfoldable pub int_of : Text → ℕ
unfolding number_from
int_of s = (number_from 0 s).0

-- The commands that the feeds put into a pipeline.
pub data Command : Type 0 where
  zadd : Text → Text → ℕ → Command
  zremrangebyrank : Text → ℤ → ℤ → Command

-- The pair of commands that adds a post to a timeline and cuts the timeline to its size. The last
-- rank is `-feed_max_size - 1`.
unfoldable pub push_commands : Text → ℕ → ℕ → List Command
push_commands key post_id score =
    zadd key (decimal post_id) score ∷ zremrangebyrank key (pos 0) (negsuc feed_max_size) ∷ []

-- The pipeline of `create_post`.
unfoldable pub create_commands : ℕ → ℕ → ℕ → List Command
unfolding push_commands
create_commands author_id post_id score =
    push_commands (Keys.user_posts author_id) post_id score
    ++ (push_commands (Keys.home_feed author_id) post_id score
        ++ push_commands Keys.global_recent_feed post_id score)

-- The loop of `fanout_post_to_followers`: the number of followers, and the pipeline.
unfoldable pub fanout_commands : ℕ → ℕ → List ℕ → ℕ × List Command
unfolding push_commands
fanout_commands post_id score [] = (0, [])
fanout_commands post_id score (fid ∷ follower_ids) =
    let (written, pipe) = fanout_commands post_id score follower_ids in
    (written + 1, push_commands (Keys.home_feed fid) post_id score ++ pipe)

-- A dict from post ids to scores, in the order of insertion.
abbrev pub Scores : Type 0
Scores = List (ℕ × ℕ)

unfoldable pub lookup : ℕ → Scores → Option ℕ
lookup pid [] = none
lookup pid ((j, x) ∷ d) = if j == pid then some x else lookup pid d

-- `d[pid] = score`
unfoldable pub store : ℕ → ℕ → Scores → Scores
store pid score [] = (pid, score) ∷ []
store pid score ((j, x) ∷ d) = if j == pid then (j, score) ∷ d else (j, x) ∷ store pid score d

-- `{int(pid): score for pid, score in home}`
unfoldable pub from_home : List Row → Scores → Scores
from_home [] d = d
from_home ((m, x) ∷ rows) d = from_home rows (store (int_of m) x d)

-- `merged[pid] = max(score, merged.get(pid, 0.0))` for each row.
unfoldable pub merge_rows : List Row → Scores → Scores
merge_rows [] d = d
merge_rows ((m, x) ∷ rows) d =
    merge_rows rows (store (int_of m) (max x (Option.get_or (lookup (int_of m) d) 0)) d)

-- `sorted(…, key=lambda kv: kv[1], reverse=True)`, which keeps the order of equal scores.
unfoldable pub insert_by_score : ℕ × ℕ → Scores → Scores
insert_by_score e [] = e ∷ []
insert_by_score e (f ∷ d) = if leb f.1 e.1 then e ∷ f ∷ d else f ∷ insert_by_score e d

unfoldable pub sort_by_score : Scores → Scores
unfolding insert_by_score
sort_by_score [] = []
sort_by_score (e ∷ d) = insert_by_score e (sort_by_score d)

-- The first `limit` ids by falling score.
unfoldable pub top_ids : ℕ → Scores → List ℕ
unfolding sort_by_score
top_ids limit merged = map (λ (e : ℕ × ℕ). e.0) (take limit (sort_by_score merged))

-- `int(cnt or 0) > settings.celebrity_follower_threshold`
unfoldable pub is_celebrity : Option ℤ → Bool
is_celebrity cnt = elim (or_zero cnt) [
  | pos n ↦ ltb celebrity_follower_threshold n
  | negsuc n ↦ false
]

module _ (z : ZsetServer) where
  unfoldable pub run_command : z.Server → Command → z.Server
  run_command s (zadd key member score) = z.zadd s key member score
  run_command s (zremrangebyrank key lo hi) = z.zremrangebyrank s key lo hi

  -- `pipe.execute()`
  unfoldable pub execute : z.Server → List Command → z.Server
  unfolding run_command
  execute s [] = s
  execute s (c ∷ pipe) = execute (run_command s c) pipe

  unfoldable pub fanout_post_to_followers : z.Server → ℕ → ℕ → List ℕ → ℕ × z.Server
  unfolding fanout_commands execute
  fanout_post_to_followers s post_id score follower_ids =
      let (written, pipe) = fanout_commands post_id score follower_ids in
      (written, if written == 0 then s else execute s pipe)

  -- The commands of the mapping `{pid: score for pid, score in posts}` as one ZADD each.
  unfoldable pub backfill_commands : Text → List Row → List Command
  backfill_commands key [] = []
  backfill_commands key ((m, x) ∷ posts) = zadd key m x ∷ backfill_commands key posts

  unfoldable pub copy_posts : z.Server → Text → List Row → ℕ × z.Server
  unfolding execute backfill_commands
  copy_posts s key [] = (0, s)
  copy_posts s key (p ∷ posts) = (
    length (p ∷ posts),
    execute s (
        backfill_commands key (p ∷ posts)
        ++ zremrangebyrank key (pos 0) (negsuc feed_max_size) ∷ []),
  )

  -- `backfill_follower_feed`; a limit of 0 asks for the ranks 0 to -1, which are all.
  unfoldable pub backfill_follower_feed : z.Server → ℕ → ℕ → ℕ → ℕ × z.Server
  unfolding copy_posts
  backfill_follower_feed s follower_id followee_id limit =
      copy_posts s (Keys.home_feed follower_id) (
        z.zrevrange s (Keys.user_posts followee_id) (pos 0)
          (if limit == 0 then negsuc 0 else pos (limit - 1)))

  -- The celebrities' rows, merged one after another.
  unfoldable pub merge_timelines : z.Server → Option ℕ → ℕ → List ℕ → Scores → Scores
  unfolding merge_rows
  merge_timelines s top limit [] d = d
  merge_timelines s top limit (cid ∷ celebrity_ids) d =
      merge_timelines s top limit celebrity_ids
        (merge_rows (z.zrevrangebyscore s (Keys.user_posts cid) top limit) d)

  -- `_backfill_global_recent_feed`. What the database selects, at most `feed_max_size` posts by
  -- falling `created_at`, is given as a mapping from ids to timestamps.
  unfoldable pub backfill_global_recent_feed : z.Server → List (ℕ × ℕ) → z.Server
  unfolding execute
  backfill_global_recent_feed s recent =
      if z.exists s Keys.global_recent_feed
      then s
      else execute s (map (λ (e : ℕ × ℕ). zadd Keys.global_recent_feed (decimal e.0) e.1) recent)

  module _ (c : CounterServer) (g : SetServer) where
    unfoldable pub celebrities : c.Server → List Text → List ℕ
    unfolding is_celebrity
    celebrities counters following =
        keep (λ (cid : ℕ). is_celebrity (c.value counters (Keys.user_follower_count cid)))
          (map int_of following)

    -- The scores of the materialised feed and of the celebrities that the user follows.
    unfoldable pub followed_scores : z.Server → c.Server → g.Server → ℕ → ℕ → Option ℕ → Scores
    unfolding celebrities merge_timelines from_home
    followed_scores s counters sets user_id limit before_ts =
        merge_timelines s before_ts limit
          (celebrities counters (g.smembers sets (Keys.user_following user_id)))
          (from_home (z.zrevrangebyscore s (Keys.home_feed user_id) before_ts limit) [])

    -- What `get_home_feed` merges, all up to `before_ts`, and the server after the backfill.
    unfoldable pub merged_scores :
        z.Server → c.Server → g.Server → List (ℕ × ℕ) → ℕ → ℕ → Option ℕ → Scores × z.Server
    unfolding followed_scores merge_rows backfill_global_recent_feed
    merged_scores s counters sets recent user_id limit before_ts =
        let s' = backfill_global_recent_feed s recent in
        (
          merge_rows (z.zrevrangebyscore s' Keys.global_recent_feed before_ts limit)
              (followed_scores s counters sets user_id limit before_ts),
          s',
        )

    -- The ids that `get_home_feed` hands to `hydrate_posts`.
    unfoldable pub home_feed_ids :
        z.Server → c.Server → g.Server → List (ℕ × ℕ) → ℕ → ℕ → Option ℕ → List ℕ × z.Server
    unfolding merged_scores top_ids
    home_feed_ids s counters sets recent user_id limit before_ts =
        let (merged, s') = merged_scores s counters sets recent user_id limit before_ts in
        (top_ids limit merged, s')
