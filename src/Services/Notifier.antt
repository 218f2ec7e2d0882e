-- ===== src/Services/Notifier.antt =====
-- app/workers/notification_worker.py.
use redis_project.Base.{
  ℕ, ◌≡◌, Bool, true, false, some, List, [], ◌∷◌, Text, codes, text_eq, ◌==◌, if◌then◌else◌, not,
}
use redis_project.Activity.Karma.{add_karma}
use redis_project.Backend.{
  Backend, Job, NotificationEvent, fanout_post, backfill_follower, persist, unknown,
}
use redis_project.Database.{Notification}
use redis_project.Queue.{Json, StreamMessage, State, Progress}
use redis_project.Queue
use redis_project.Redis.Boards.{BoardServer}
use redis_project.Redis.Groups.{GroupServer}
pub mod Credited

-- `_KARMA_PER_KIND.get(kind, 0)`
unfoldable pub karma_per_kind : Text → ℕ
karma_per_kind kind =
    if text_eq kind (codes "like")
    then 1
    else (if text_eq kind (codes "comment")
        then 2
        else (if text_eq kind (codes "follow") then 3 else 0))

-- The columns of the row that `_handle` adds.
unfoldable pub row_of : NotificationEvent → Notification
row_of p = record {
  recipient_id = p.recipient_id;
  actor_id = p.actor_id;
  kind = p.kind;
  object_type = p.object_type;
  object_id = p.object_id;
  message = p.message;
}

module _ (b : Backend) (k : BoardServer) where
  -- What the worker works on.
  pub record Books : Type 0 where
    pub db : b.database.Db
    pub board : k.Server

  unfoldable pub credit : NotificationEvent → k.Server → k.Server
  unfolding karma_per_kind
  credit p s =
      let delta = karma_per_kind p.kind in
      if not (delta == 0) then (add_karma k s p.recipient_id delta).1 else s

  unfoldable pub keep_notification : NotificationEvent → Books → Books
  unfolding row_of credit
  keep_notification p w = record {
    db = b.database.insert_notification w.db (row_of p);
    board = credit p w.board;
  }

  -- A payload of another type is logged.
  unfoldable pub handle_job : Job → Books → Books
  unfolding keep_notification
  handle_job (fanout_post post_id author_id score) w = w
  handle_job (backfill_follower follower_id followee_id) w = w
  handle_job (persist p) w = keep_notification p w
  handle_job (unknown kind) w = w

  -- Whether the transaction goes through; `commits` tells it for a row and a database. A commit that
  -- raises rolls the row back.
  unfoldable pub succeeds : (b.database.Db → Notification → Bool) → Job → Books → Bool
  unfolding row_of
  succeeds commits (fanout_post post_id author_id score) w = true
  succeeds commits (backfill_follower follower_id followee_id) w = true
  succeeds commits (persist p) w = commits w.db (row_of p)
  succeeds commits (unknown kind) w = true

  module _ (commits : b.database.Db → Notification → Bool) where
    -- `_handle`; false is an exception of the commit, before any karma is given.
    unfoldable pub handle_notification : StreamMessage Job → Books → Bool × Books
    unfolding handle_job succeeds
    handle_notification msg w =
        if succeeds commits msg.payload w then (true, handle_job msg.payload w) else (false, w)

    -- `run`, with the rounds of `consume`.
    unfoldable pub run_notifications :
        (j : Json Job) (g : GroupServer)
        → (Books → Bool)
        → List ℕ
        → Text
        → State g Books
        → Progress × State g Books
    unfolding handle_notification
    run_notifications j g stop times consumer st =
        Queue.run j g handle_notification stop times consumer 64 st
