-- ===== src/Tests/Notify.antt =====
-- A notification on the sample servers.
use redis_project.Base.{ℕ, ◌≡◌, ◌≢◌, some, [], ◌∷◌, ◌++◌, Text, codes}
use redis_project.Backend.{persist}
use redis_project.Keys
use redis_project.Redis.Counters.{or_zero, plus_one}
use redis_project.Services.Notify.{new_event, emit_notification}
use redis_project.Services.Notify.Delivery.{Newest, emit_notification_lem}
use redis_project.Tests.Backend.{backend, empty_app}

emit_notification_lem_example :
    let actor : ℕ = 1 in
    let recipient : ℕ = 2 in
    let a = empty_app in
    let a' = emit_notification backend (codes "follow") 1 2 (codes "user") 2 (codes "hi") a in
    let event = new_event (codes "follow") 1 2 (codes "user") 2 (codes "hi") a.now in
    let unread = Keys.notification_unread 2 in
    ((actor ≡ recipient) → a' ≡ a)
    × ((actor ≢ recipient)
        → ((id : Text) × Newest
              (backend.streams.entries a'.streams (Keys.notification_stream 2))
              id
              (backend.events.dumps event))
          × ((id : Text) × Newest
                (backend.streams.entries a'.streams Keys.stream_notifications)
                id
                (backend.jobs.dumps (persist event)))
          × (backend.counters.value a'.counters unread
              ≡ some (plus_one (or_zero (backend.counters.value a.counters unread))))
          × (a'.published ≡ a.published ++ (Keys.notification_pubsub 2, event) ∷ []))
    × (a'.db ≡ a.db)
    × (a'.sets ≡ a.sets)
    × (a'.zsets ≡ a.zsets)
    × (a'.strings ≡ a.strings)
emit_notification_lem_example =
    emit_notification_lem backend (codes "follow") 1 2 (codes "user") 2 (codes "hi") empty_app
