-- ===== src/Services/Workers.antt =====
-- The job handlers of app/workers.
use redis_project.Base.{
  ℕ, zero, suc, ◌+◌, ◌*◌, Bool, true, false, Option, none, some, List, [], ◌∷◌, Text, codes,
  text_eq, ◌==◌, if◌then◌else◌, length, take, drop,
}
use redis_project.Backend.{
  Backend, App, Job, NotificationEvent, fanout_post, backfill_follower, persist, unknown,
}
use redis_project.Feed.{fanout_batch_size, fanout_post_to_followers, backfill_follower_feed}
use redis_project.Redis.Zsets.{ZsetServer}
use redis_project.Services.Follow.{get_followers}
pub mod Batches
pub mod Reached

module _ (z : ZsetServer) where
  -- The `for` loop over the followers, in batches; a batch is taken as long as there are followers.
  unfoldable pub fanout_batches : ℕ → ℕ → ℕ → List ℕ → z.Server → ℕ × z.Server
  unfolding fanout_post_to_followers
  fanout_batches zero post_id score followers s = (0, s)
  fanout_batches (suc fuel) post_id score followers s =
      let (written, s') =
        fanout_post_to_followers z s post_id score (take fanout_batch_size followers) in
      let (total, s'') = fanout_batches fuel post_id score (drop fanout_batch_size followers) s' in
      if length followers == 0 then (0, s) else (written + total, s'')

module _ (b : Backend) where
  -- `_handle` of app/workers/fanout_worker.py. There are no more batches than followers.
  unfoldable pub handle_fanout : (List Text → ℕ → List Text) → Job → App b → App b
  unfolding fanout_batches
  handle_fanout random (fanout_post post_id author_id score) a =
      let (followers, a') = get_followers b random author_id 100000 a in
      record a' {
        zsets = (fanout_batches b.zsets (length followers) post_id score followers a'.zsets).1;
      }
  handle_fanout random (backfill_follower follower_id followee_id) a = record a {
    zsets = (backfill_follower_feed b.zsets a.zsets follower_id followee_id 50).1;
  }
  handle_fanout random (persist event) a = a
  handle_fanout random (unknown kind) a = a
