-- ===== src/Api/Notifications.antt =====
-- app/api/notifications.py.
use redis_project.Base.{
  ℕ, Bool, true, false, Option, none, some, List, [], ◌∷◌, Text, codes, if◌then◌else◌,
}
use mathlib.Core.Option
use redis_project.Api.{
  Site, Web, Reply, ok, http_exception, crashed, seconds, user_of_session, with_user,
}
use redis_project.Backend.{NotificationEvent}
use redis_project.Base.Int.{ℤ}
use redis_project.Services.Notify
use redis_project.Sessions.{get_session}
pub mod Resolved
pub mod Forwarded

-- What the client of a WebSocket is sent.
pub data Frame : Type 0 where
  history : List (Text × NotificationEvent) → Frame
  event : NotificationEvent → Frame

-- How a connection ends: by a close with status 1008, by the end of the loop, or by an exception that
-- is not caught; after the rounds that are given it may also still be open.
pub data Ending : Type 0 where
  policy_violation disconnected failed still_open : Ending

-- What has completed when `asyncio.wait` returns. `received` is an event of the client, true for
-- a disconnect; `polled` is the reply of `get_message`, with the data of a message.
pub record Round : Type 0 where
  pub received : Option Bool
  pub polled : Option (Option Text)

module _ (p : Site) where
  unfoldable pub list_notifications :
      Option Text → ℕ → Web p → Reply (List (Text × NotificationEvent) × ℤ) × Web p
  unfolding with_user
  list_notifications authorization limit = with_user p authorization (λ user_id w.
      elim (Notify.list_notifications p.backend user_id limit w.app) [
        | none ↦ (crashed, w)
        | some items ↦ (ok (items, Notify.unread_count p.backend user_id w.app), w)
      ])

  unfoldable pub mark_all_read : Option Text → Web p → Reply Text × Web p
  unfolding with_user
  mark_all_read authorization = with_user p authorization (λ user_id w.
      (ok (codes "ok"), record w { app = Notify.mark_all_read p.backend user_id w.app }))

  -- The `try` statement of `_resolve_user`.
  unfoldable pub try_jwt : Web p → Text → Option ℕ
  unfolding seconds
  try_jwt w token = elim (p.jwt.decode (seconds p w) token) [ none ↦ none | some subject ↦ subject ]

  unfoldable pub some_user : Reply ℕ → Reply (Option ℕ)
  some_user (ok user_id) = ok (some user_id)
  some_user (http_exception status detail) = http_exception status detail
  some_user crashed = crashed

  -- `_resolve_user`
  unfoldable pub resolve_user : Web p → Text → Reply (Option ℕ)
  unfolding try_jwt some_user user_of_session seconds
  resolve_user w token = elim (get_session p.hashes p.sets w.sessions (seconds p w) token) [
    | none ↦ ok (try_jwt w token)
    | some session ↦ some_user (user_of_session p session)
  ]

  -- A frame that the loop sends, before the rest.
  unfoldable pub send : NotificationEvent → List Frame × Ending → List Frame × Ending
  send e (frames, ending) = (event e ∷ frames, ending)

  -- The second half of a round, once it is not a disconnect.
  unfoldable pub forward : Option (Option Text) → List Frame × Ending → List Frame × Ending
  unfolding send
  forward none rest = rest
  forward (some none) rest = rest
  forward (some (some payload)) rest = elim (p.backend.events.loads payload) [
    | none ↦ ([], failed)
    | some e ↦ send e rest
  ]

  -- The `while` loop, of the rounds that are given.
  unfoldable pub ws_loop : List Round → List Frame × Ending
  unfolding forward
  ws_loop [] = ([], still_open)
  ws_loop (r ∷ rounds) =
      let rest = forward r.polled (ws_loop rounds) in
      if Option.get_or r.received false then ([], disconnected) else rest

  -- The handler from the history on.
  unfoldable pub serve : ℕ → Web p → List Round → List Frame × Ending
  unfolding ws_loop
  serve user_id w rounds = elim (Notify.list_notifications p.backend user_id 20 w.app) [
    | none ↦ ([], failed)
    | some items ↦ let (frames, ending) = ws_loop rounds in (history items ∷ frames, ending)
  ]

  unfoldable pub accept : Reply (Option ℕ) → Web p → List Round → List Frame × Ending
  unfolding serve
  accept (ok none) w rounds = ([], policy_violation)
  accept (ok (some user_id)) w rounds = serve user_id w rounds
  accept (http_exception status detail) w rounds = ([], failed)
  accept crashed w rounds = ([], failed)

  unfoldable pub notifications_ws : Option Text → Web p → List Round → List Frame × Ending
  unfolding accept resolve_user
  notifications_ws none w rounds = ([], policy_violation)
  notifications_ws (some []) w rounds = ([], policy_violation)
  notifications_ws (some (c ∷ token)) w rounds = accept (resolve_user w (c ∷ token)) w rounds
