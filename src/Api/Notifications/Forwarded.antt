-- ===== src/Api/Notifications/Forwarded.antt =====
-- What a WebSocket sends until the client leaves.
use redis_project.Base.{
  ℕ, ◌≡◌, refl, ap, ◌∙◌, Bool, true, false, Option, none, some, List, [], ◌∷◌, ◌++◌, map, Text,
}
use mathlib.Core.Option
use redis_project.Api.{Site, Web, ok, user_of_token}
use redis_project.Api.Notifications.{
  Frame, Round, history, event, disconnected, ws_loop, forward, send, serve, accept,
  notifications_ws,
}
use redis_project.Api.Notifications.Resolved.{resolve_user_lem}
use redis_project.Backend.{NotificationEvent}
use redis_project.Services.Notify

-- What one round brings before the client leaves: whether the client sends something, and whether
-- the poll completes in that round, with no message or with one.
abbrev pub Arrival : Type 0
Arrival = Bool × Option (Option NotificationEvent)

abbrev pub sent : Bool → Option Bool
sent true = some false
sent false = none

abbrev pub arrival : (p : Site) → Arrival → Round
arrival p (sends, message) = record {
  received = sent sends;
  polled = Option.map (Option.map p.backend.events.dumps) message;
}

-- The client leaves, whatever the poll of that round brings.
abbrev pub leaving : Option (Option Text) → Round
leaving polled = record { received = some true; polled = polled }

abbrev pub event_frames : List Arrival → List Frame
event_frames [] = []
event_frames ((sends, some (some e)) ∷ arrivals) = event e ∷ event_frames arrivals
event_frames ((sends, _) ∷ arrivals) = event_frames arrivals

module _ (p : Site) where
  ws_loop-sent :
      (sends : Bool) (polled : Option (Option Text)) (rounds : List Round)
      → ws_loop p (record { received = sent sends; polled = polled } ∷ rounds)
        ≡ forward p polled (ws_loop p rounds)
  unfolding ws_loop
  ws_loop-sent true polled rounds = refl
  ws_loop-sent false polled rounds = refl

  ws_loop-arrivals :
      (arrivals : List Arrival) (last : Option (Option Text)) (rounds : List Round)
      → ws_loop p (map (arrival p) arrivals ++ leaving last ∷ rounds)
        ≡ (event_frames arrivals, disconnected)
  unfolding ws_loop forward send
  ws_loop-arrivals [] last rounds = refl
  ws_loop-arrivals ((sends, none) ∷ arrivals) last rounds =
      ws_loop-sent sends none (map (arrival p) arrivals ++ leaving last ∷ rounds)
      ∙ ws_loop-arrivals arrivals last rounds
  ws_loop-arrivals ((sends, some none) ∷ arrivals) last rounds =
      ws_loop-sent sends (some none) (map (arrival p) arrivals ++ leaving last ∷ rounds)
      ∙ ws_loop-arrivals arrivals last rounds
  ws_loop-arrivals ((sends, some (some e)) ∷ arrivals) last rounds =
      ws_loop-sent sends (some (some (p.backend.events.dumps e)))
        (map (arrival p) arrivals ++ leaving last ∷ rounds)
      ∙ rw (forward, p.backend.events.loads_dumps e)
          (ap (send p e) (ws_loop-arrivals arrivals last rounds))

  -- To a client with a user's token, whose stored notifications are all JSON, a WebSocket sends the
  -- user's 20 newest notifications first. Then, whatever the client sends between, it sends each
  -- event whose poll completes in a round before the one in which the client leaves, once and in
  -- the order of the rounds. A message that completes in the round of the disconnect is not sent,
  -- nor is anything later.
  pub notifications_ws_lem :
      (w : Web p) (c : ℕ) (token : Text) (user_id : ℕ) (items : List (Text × NotificationEvent))
      → user_of_token p w (c ∷ token) ≡ ok user_id
      → Notify.list_notifications p.backend user_id 20 w.app ≡ some items
      → (arrivals : List Arrival) (last : Option (Option Text)) (rounds : List Round)
      → notifications_ws p (some (c ∷ token)) w (map (arrival p) arrivals ++ leaving last ∷ rounds)
        ≡ (history items ∷ event_frames arrivals, disconnected)
  unfolding notifications_ws accept serve
  notifications_ws_lem w c token user_id items known read arrivals last rounds =
      let found = (resolve_user_lem p w (c ∷ token) user_id).0 known in
      rw (found, accept, read, serve, ws_loop-arrivals arrivals last rounds) refl
