-- ===== src/Services/Notify.antt =====
-- `emit_notification` and the read API of app/services/notification_service.py, and the `publish`
-- of app/redis_layer/queue.py that it uses.
use redis_project.Base.{
  ℕ, ◌+◌, ◌*◌, ◌≡◌, ◌≢◌, refl, sym, ap, ◌∙◌, inl, inr, Bool, true, false, Option, none, some, List,
  [], ◌∷◌, ◌++◌, Text, codes, ◌==◌, if◌then◌else◌,
}
use redis_project.Base.Int.{ℤ, pos}
use mathlib.Core.Option
use redis_project.Backend.{Backend, App, Job, NotificationEvent, persist}
use redis_project.Keys
use redis_project.Redis.Counters.{or_zero}
pub mod Delivery

-- `_MAX_STREAM_LEN`
unfoldable pub max_stream_len : ℕ
max_stream_len = 1000

unfoldable pub unread_ttl : ℕ
unread_ttl = 60 * 60 * 24 * 30

unfoldable pub new_event : Text → ℕ → ℕ → Text → ℕ → Text → ℕ → NotificationEvent
new_event kind actor_id recipient_id object_type object_id message ts = record {
  kind = kind;
  actor_id = actor_id;
  recipient_id = recipient_id;
  object_type = object_type;
  object_id = object_id;
  message = message;
  ts = ts;
}

module _ (b : Backend) where
  -- `StreamQueue.publish` with its default length; the id is for the caller.
  unfoldable pub publish_job : Text → Job → App b → Text × App b
  publish_job stream job a =
      let (id, streams) = b.streams.xadd a.streams stream (b.jobs.dumps job) 100000 in
      (id, record a { streams = streams })

  -- The pipeline of `emit_notification`.
  unfoldable pub store_event : NotificationEvent → App b → App b
  store_event event a =
      let unread = Keys.notification_unread event.recipient_id in
      record a {
        streams =
            (b.streams.xadd a.streams (Keys.notification_stream event.recipient_id)
              (b.events.dumps event) max_stream_len).1;
        counters = b.counters.expire (b.counters.incr a.counters unread) unread unread_ttl;
      }

  -- `pubsub.publish`
  unfoldable pub publish_event : NotificationEvent → App b → App b
  publish_event event a = record a {
    published = a.published ++ (Keys.notification_pubsub event.recipient_id, event) ∷ [];
  }

  unfoldable pub emit_notification : Text → ℕ → ℕ → Text → ℕ → Text → App b → App b
  emit_notification kind actor_id recipient_id object_type object_id message a =
      let event = new_event kind actor_id recipient_id object_type object_id message a.now in
      if actor_id == recipient_id
      then a
      else (publish_job Keys.stream_notifications (persist event)
          (publish_event event (store_event event a))).1

  -- The loop of `list_notifications`: entries without data are skipped; `none` is the exception
  -- for data that is no JSON.
  unfoldable pub decode_entries : List (Text × Text) → Option (List (Text × NotificationEvent))
  decode_entries [] = some []
  decode_entries ((id, []) ∷ entries) = decode_entries entries
  decode_entries ((id, c ∷ s) ∷ entries) =
      let rest = decode_entries entries in
      elim (b.events.loads (c ∷ s)) [
        | none ↦ none
        | some event ↦ Option.map (λ out. (id, event) ∷ out) rest
      ]

  unfoldable pub list_notifications : ℕ → ℕ → App b → Option (List (Text × NotificationEvent))
  unfolding decode_entries
  list_notifications user_id limit a =
      decode_entries (b.streams.xrevrange a.streams (Keys.notification_stream user_id) limit)

  unfoldable pub mark_all_read : ℕ → App b → App b
  mark_all_read user_id a = record a {
    counters = b.counters.del a.counters (Keys.notification_unread user_id);
  }

  unfoldable pub unread_count : ℕ → App b → ℤ
  unread_count user_id a = or_zero (b.counters.value a.counters (Keys.notification_unread user_id))
