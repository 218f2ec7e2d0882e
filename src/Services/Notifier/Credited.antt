-- ===== src/Services/Notifier/Credited.antt =====
-- What the notification worker has written once it has worked off its stream.
use redis_project.Base.{
  ℕ, ◌+◌, ◌≤◌, ◌≡◌, refl, ap, ◌∙◌, inl, inr, Bool, true, false, List, [], ◌∷◌, Text, ◌==◌,
  if◌then◌else◌, length, arith, Bool-cases,
}
use redis_project.Activity.Karma.{add_karma}
use redis_project.Backend.{
  Backend, Job, NotificationEvent, fanout_post, backfill_follower, persist, unknown,
}
use redis_project.Database.{Notification}
use redis_project.Database.Tables.{NotificationTable}
use redis_project.Keys
use redis_project.Keys.Decimal.{decimal}
use redis_project.Queue.{Json, StreamMessage, State, going, rounds}
use redis_project.Queue.Work.{work, message_of, AllDecode, rounds_lem}
use redis_project.Redis.Boards.{BoardServer, score_in}
use redis_project.Redis.Groups.{Entry, GroupServer}
use redis_project.Services.Graph.{decimal-injective}
use redis_project.Services.Notifier.{
  Books, karma_per_kind, row_of, credit, keep_notification, handle_job, succeeds,
  handle_notification,
}

-- What one job adds to a user's karma.
abbrev pub karma_for : ℕ → Job → ℕ
karma_for u (fanout_post post_id author_id score) = 0
karma_for u (backfill_follower follower_id followee_id) = 0
karma_for u (persist p) = if u == p.recipient_id then karma_per_kind p.kind else 0
karma_for u (unknown kind) = 0

-- The table's rows with the one of a job in front.
abbrev pub with_row : Job → List Notification → List Notification
with_row (fanout_post post_id author_id score) rows = rows
with_row (backfill_follower follower_id followee_id) rows = rows
with_row (persist p) rows = row_of p ∷ rows
with_row (unknown kind) rows = rows

module _ (j : Json Job) where
  abbrev pub karma_sum : ℕ → List Entry → ℕ
  karma_sum u [] = 0
  karma_sum u (e ∷ rows) = karma_for u (message_of j e).payload + karma_sum u rows

  abbrev pub with_rows : List Entry → List Notification → List Notification
  with_rows [] rows = rows
  with_rows (e ∷ entries) rows = with_rows entries (with_row (message_of j e).payload rows)

module _ (b : Backend) (k : BoardServer) where
  abbrev pub karma : k.Server → ℕ → ℕ
  karma s u = score_in (decimal u) (k.board s Keys.leaderboard_karma)

  karma-add_karma :
      (s : k.Server) (u v n : ℕ)
      → karma (add_karma k s v n).1 u ≡ karma s u + (if u == v then n else 0)
  unfolding add_karma
  karma-add_karma s u v n = elim (Bool-cases (u == v)) [
    | inl same ↦
        let e : u ≡ v = ground arith in
        rw (same, e) (k.score_zincrby s Keys.leaderboard_karma n (decimal v))
    | inr other ↦ rw other (
        k.score_zincrby_other s Keys.leaderboard_karma n (decimal v) (decimal u)
          (λ e. let same = decimal-injective u v e in ground arith)
        ∙ omega arith)
  ]

  karma-credit :
      (p : NotificationEvent) (s : k.Server) (u : ℕ)
      → karma (credit b k p s) u ≡ karma s u + karma_for u (persist p)
  unfolding credit
  karma-credit p s u = elim (Bool-cases (karma_per_kind p.kind == 0)) [
    | inl none_due ↦ rw (none_due, credit) (ground arith)
    | inr due ↦ rw (due, credit) (karma-add_karma s u p.recipient_id (karma_per_kind p.kind))
  ]

  karma-handle_job :
      (job : Job) (w : Books b k) (u : ℕ)
      → karma (handle_job b k job w).board u ≡ karma w.board u + karma_for u job
  unfolding handle_job keep_notification
  karma-handle_job (fanout_post post_id author_id score) w u = omega arith
  karma-handle_job (backfill_follower follower_id followee_id) w u = omega arith
  karma-handle_job (persist p) w u = karma-credit p w.board u
  karma-handle_job (unknown kind) w u = omega arith

  module _ (table : NotificationTable b.database) where
    notifications-handle_job :
        (job : Job) (w : Books b k)
        → b.database.notifications (handle_job b k job w).db
          ≡ with_row job (b.database.notifications w.db)
    unfolding handle_job keep_notification
    notifications-handle_job (fanout_post post_id author_id score) w = refl
    notifications-handle_job (backfill_follower follower_id followee_id) w = refl
    notifications-handle_job (persist p) w = table.insert_notification_lem w.db (row_of p)
    notifications-handle_job (unknown kind) w = refl

    module _ (commits : b.database.Db → Notification → Bool)
        (always : (d : b.database.Db) (n : Notification) → commits d n ≡ true) where
      succeeds_always : (job : Job) (w : Books b k) → succeeds b k commits job w ≡ true
      unfolding succeeds
      succeeds_always (fanout_post post_id author_id score) w = refl
      succeeds_always (backfill_follower follower_id followee_id) w = refl
      succeeds_always (persist p) w = always w.db (row_of p)
      succeeds_always (unknown kind) w = refl

      handle_notification_returns :
          (m : StreamMessage Job) (w : Books b k)
          → handle_notification b k commits m w ≡ (true, handle_job b k m.payload w)
      unfolding handle_notification
      handle_notification_returns m w = rw (succeeds_always m.payload w) refl

      module _ (j : Json Job) (g : GroupServer) where
        karma-work :
            (rows : List Entry) (w : Books b k) (u : ℕ)
            → karma (work j g (handle_notification b k commits) rows w).board u
              ≡ karma w.board u + karma_sum j u rows
        karma-work [] w u = omega arith
        karma-work (e ∷ rows) w u =
            let job = (message_of j e).payload in
            let rest = karma-work rows (handle_job b k job w) u in
            let first = karma-handle_job job w u in
            ap
              (λ (r : Bool × Books b k).
                karma (work j g (handle_notification b k commits) rows r.1).board u)
              (handle_notification_returns (message_of j e) w)
            ∙ omega arith

        notifications-work :
            (rows : List Entry) (w : Books b k)
            → b.database.notifications (work j g (handle_notification b k commits) rows w).db
              ≡ with_rows j rows (b.database.notifications w.db)
        notifications-work [] w = refl
        notifications-work (e ∷ rows) w =
            let job = (message_of j e).payload in
            ap
              (λ (r : Bool × Books b k).
                b.database.notifications (work j g (handle_notification b k commits) rows r.1).db)
              (handle_notification_returns (message_of j e) w)
            ∙ notifications-work rows (handle_job b k job w)
            ∙ ap (with_rows j rows) (notifications-handle_job job w)

        -- A notification worker that is alone with its stream, where all data is JSON, every commit
        -- goes through and no signal comes, and that makes as many rounds as messages are waiting, adds the row of each waiting
        -- notification to the table, in the order of publication, and to each user's karma what
        -- the kinds of the notifications to that user are worth. Nothing is left to deliver.
        pub rounds-IsCredited :
            (consumer : Text) (times : List ℕ) (st : State g (Books b k))
            → g.has_group st.server ≡ true
            → length (g.undelivered st.server) ≤ length times
            → AllDecode j (g.undelivered st.server)
            → let waiting = g.undelivered st.server in
              let (progress, st') =
                rounds j g (handle_notification b k commits) (λ w. false) times consumer 64 st in
              (progress ≡ going)
              × (g.undelivered st'.server ≡ [])
              × (b.database.notifications st'.world.db
                  ≡ with_rows j waiting (b.database.notifications st.world.db))
              × ((u : ℕ) → karma st'.world.board u ≡ karma st.world.board u + karma_sum j u waiting)
        rounds-IsCredited consumer times st grouped few h =
            let (progress, world, left, pending) =
              rounds_lem j g (handle_notification b k commits) (λ w. false)
                (λ m w. ap (λ (r : Bool × Books b k). r.0) (handle_notification_returns m w))
                (λ w. refl) consumer 64 (omega arith) times st grouped few h in
            (
              progress,
              left,
              ap (λ (w : Books b k). b.database.notifications w.db) world
                  ∙ notifications-work (g.undelivered st.server) st.world,
              λ u.
                  ap (λ (w : Books b k). karma w.board u) world
                  ∙ karma-work (g.undelivered st.server) st.world u,
            )
