-- ===== src/Services/Notify/Delivery.antt =====
-- A notification reaches the recipient's stream, counter and channel, and the job stream.
use redis_project.Base.{
  ℕ, zero, suc, ◌≤◌, ◌<◌, ◌≡◌, ◌≢◌, refl, sym, ◌∙◌, inl, inr, some, List, [], ◌∷◌, ◌++◌, Text, ◌==◌,
  length, drop, arith, Bool-cases,
}
use redis_project.Backend.{Backend, App, persist}
use redis_project.Keys
use redis_project.Keys.Apart.{stream_notifications-ne-notification_stream}
use redis_project.Redis.Counters.{or_zero, plus_one}
use redis_project.Services.Notify.{
  new_event, publish_job, store_event, publish_event, emit_notification, max_stream_len, unread_ttl,
}

drop-append {ℓ} :
    {A : Type ℓ} (n : ℕ) (xs ys : List A) → n ≤ length xs → drop n (xs ++ ys) ≡ drop n xs ++ ys
drop-append zero xs ys h = refl
drop-append (suc n) [] ys h = absurd (omega arith)
drop-append (suc n) (x ∷ xs) ys h = drop-append n xs ys (omega arith)

-- The stream's last entry.
abbrev pub Newest : List (Text × Text) → Text → Text → Type 0
Newest entries id v = (older : List (Text × Text)) × (entries ≡ older ++ (id, v) ∷ [])

module _ (b : Backend) where
  -- What is added to a stream stands there, as its newest entry.
  pub xadd-Newest :
      (s : b.streams.Server) (k v : Text) (maxlen : ℕ)
      → 0 < maxlen
      → Newest
          (b.streams.entries (b.streams.xadd s k v maxlen).1 k)
          (b.streams.xadd s k v maxlen).0
          v
  xadd-Newest s k v maxlen h =
      let (cut, e, few) = b.streams.entries_xadd s k v maxlen in
      (
        drop cut (b.streams.entries s k),
        e ∙ drop-append cut (b.streams.entries s k) _ (omega arith),
      )

  -- An entry of another stream leaves the newest entry what it was.
  pub Newest-other :
      {id w : Text} (s : b.streams.Server) (k v : Text) (maxlen : ℕ) (j : Text)
      → j ≢ k
      → Newest (b.streams.entries s j) id w
      → Newest (b.streams.entries (b.streams.xadd s k v maxlen).1 j) id w
  Newest-other s k v maxlen j h (older, e) = (older, b.streams.xadd_other s k v maxlen j h ∙ e)

  module _ (kind : Text) (actor_id recipient_id : ℕ) (object_type : Text) (object_id : ℕ)
      (message : Text) (a : App b) where
    -- A notification to somebody else is the newest entry of the recipient's stream, counts one
    -- more as unread, is published last, on the recipient's channel, and is the newest job of the
    -- notification workers. Nothing is sent to oneself. The database, the feeds, the sets and the
    -- other strings are left alone.
    pub emit_notification_lem :
        let a' = emit_notification b kind actor_id recipient_id object_type object_id message a in
        let event = new_event kind actor_id recipient_id object_type object_id message a.now in
        let unread = Keys.notification_unread recipient_id in
        ((actor_id ≡ recipient_id) → a' ≡ a)
        × ((actor_id ≢ recipient_id)
            → ((id : Text) × Newest
                  (b.streams.entries a'.streams (Keys.notification_stream recipient_id))
                  id
                  (b.events.dumps event))
              × ((id : Text) × Newest
                    (b.streams.entries a'.streams Keys.stream_notifications)
                    id
                    (b.jobs.dumps (persist event)))
              × (b.counters.value a'.counters unread
                  ≡ some (plus_one (or_zero (b.counters.value a.counters unread))))
              × (a'.published ≡ a.published ++ (Keys.notification_pubsub recipient_id, event) ∷ []))
        × (a'.db ≡ a.db)
        × (a'.sets ≡ a.sets)
        × (a'.zsets ≡ a.zsets)
        × (a'.strings ≡ a.strings)
    unfolding emit_notification new_event publish_job publish_event store_event max_stream_len
        unread_ttl
    emit_notification_lem =
        let event = new_event kind actor_id recipient_id object_type object_id message a.now in
        let unread = Keys.notification_unread recipient_id in
        elim (Bool-cases (actor_id == recipient_id)) [
          | inl same ↦
              rw (same, emit_notification)
                (λ e. refl, λ e. absurd (ground arith), refl, refl, refl, refl)
          | inr other ↦
              rw (other, emit_notification)
                (
                  λ e. absurd (ground arith),
                  λ e. (
                    (
                      _,
                      Newest-other (store_event b event a).streams Keys.stream_notifications
                          (b.jobs.dumps (persist event)) 100000
                          (Keys.notification_stream recipient_id)
                          (λ q. stream_notifications-ne-notification_stream recipient_id (sym q))
                          (xadd-Newest a.streams (Keys.notification_stream recipient_id)
                            (b.events.dumps event) max_stream_len (omega arith)),
                    ),
                    (
                      _,
                      xadd-Newest (store_event b event a).streams Keys.stream_notifications
                          (b.jobs.dumps (persist event)) 100000 (omega arith),
                    ),
                    b.counters.value_expire (b.counters.incr a.counters unread) unread unread_ttl
                          unread (omega arith)
                        ∙ b.counters.value_incr a.counters unread,
                    refl,
                  ),
                  refl,
                  refl,
                  refl,
                  refl,
                )
        ]

    -- Only the recipient's counter of unread notifications changes.
    pub emit_notification_other :
        (j : Text)
        → j ≢ Keys.notification_unread recipient_id
        → b.counters.value
            (emit_notification b kind actor_id recipient_id object_type object_id message
              a).counters
            j
          ≡ b.counters.value a.counters j
    unfolding emit_notification store_event publish_job publish_event unread_ttl new_event
    emit_notification_other j h =
        let unread = Keys.notification_unread recipient_id in
        elim (Bool-cases (actor_id == recipient_id)) [
          | inl same ↦ rw (same, emit_notification) refl
          | inr other ↦
              rw (other, emit_notification)
                (b.counters.value_expire (b.counters.incr a.counters unread) unread unread_ttl j
                    (omega arith)
                  ∙ b.counters.incr_other a.counters unread j h)
        ]
