-- ===== src/Redis/Pubsub.antt =====
-- `subscribe` of app/redis_layer/pubsub.py.
use redis_project.Base.{Option, none, some, List, [], ◌∷◌, Text, codes, text_eq, if◌then◌else◌}

-- What `listen` yields: a type and the data.
pub record PubsubMessage : Type 0 where
  pub kind : Text
  pub body : Text

-- What the loop yields, of the messages that have come: other types and data that is no JSON are
-- skipped.
unfoldable pub subscribe : {A : Type 0} → (Text → Option A) → List PubsubMessage → List A
subscribe loads [] = []
subscribe loads (message ∷ messages) =
    let rest = subscribe loads messages in
    if text_eq message.kind (codes "message")
    then (elim (loads message.body) [ none ↦ rest | some payload ↦ payload ∷ rest ])
    else rest
