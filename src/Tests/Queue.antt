-- ===== src/Tests/Queue.antt =====
-- A worker on the sample stream, whose world is the list of the payloads that it has handled.
use redis_project.Base.{
  ◌≡◌, ◌⊎◌, refl, Bool, true, false, not, ◌&&◌, Option, none, some, List, [], ◌∷◌, ◌++◌, Text,
  codes, text_eq, arith,
}
use redis_project.Queue.{
  Json, StreamMessage, State, going, consume_round, decode, rounds, run, process, publish,
}
use redis_project.Queue.Delivered.{
  System, Reach, here, next, publishes, reads, processes, Reach-found,
}
use redis_project.Queue.Drained.{run_skips}
use redis_project.Queue.Stuck.{IsStuck, rounds-IsStuck}
use redis_project.Queue.Work.{work, rounds_lem}
use redis_project.Redis.Expiring.{contains}
use redis_project.Redis.Groups.{ids}
use redis_project.Tests.Groups.{Stream, sample}

-- A payload is written with a mark before it.
abbrev read_mark : Text → Option Text
read_mark [] = none
read_mark (c ∷ s) = some s

abbrev marked : Json Text
marked = record { dumps = λ p. 1 ∷ p; loads = read_mark; loads_dumps = λ p. refl; nothing = [] }

abbrev handle : StreamMessage Text → List Text → Bool × List Text
handle m w = (true, w ++ m.payload ∷ [])

abbrev stop : List Text → Bool
stop w = false

abbrev fresh : Stream
fresh = record { group = true; delivered = []; waiting = []; pending = [] }

abbrev start : System marked sample handle
start = record {
  state = record { server = fresh; world = [] };
  published = [];
  handled = [];
  filled = false;
}

abbrev posted : Stream
unfolding publish
posted = (publish marked sample fresh (codes "a") 9).1

abbrev delivered : Stream
delivered = record {
  group = true;
  delivered = posted.waiting;
  waiting = [];
  pending = (0 ∷ []) ∷ [];
}

abbrev message : StreamMessage Text
message = record { message_id = 0 ∷ []; payload = codes "a" }

-- One message is published, read and handled.
abbrev finish : System marked sample handle
unfolding process
finish = record {
  state = process marked sample handle message (record { server = delivered; world = [] });
  published = (0 ∷ []) ∷ [];
  handled = (0 ∷ []) ∷ [];
  filled = false;
}

way : Reach marked sample handle start finish
unfolding process publish posted finish
way =
    next
      (next (next here (publishes start (codes "a") 9)) (reads _ 0 (codes "w") 5 _ delivered refl))
      (processes _ message)

Reach-found_example :
    (contains (0 ∷ []) (ids (sample.entries finish.state.server)) ≡ true
      → (contains (0 ∷ []) (ids (sample.undelivered finish.state.server)) ≡ true)
        ⊎ (contains (0 ∷ []) (sample.pending finish.state.server) ≡ true)
        ⊎ (contains (0 ∷ []) finish.handled ≡ true))
    × (finish.filled ≡ false → contains (0 ∷ []) (ids (sample.entries finish.state.server)) ≡ true)
unfolding contains text_eq finish
Reach-found_example = Reach-found marked sample handle refl refl way (0 ∷ []) refl

-- Two messages wait in a stream with a group.
abbrev waiting : State sample (List Text)
waiting = record {
  server = record fresh { waiting = (1 ∷ [], 1 ∷ codes "a") ∷ (2 ∷ [], 1 ∷ codes "b") ∷ [] };
  world = [];
}

handled_both :
    (rounds marked sample handle stop (7 ∷ 8 ∷ []) (codes "w") 5 waiting).1.world
    ≡ codes "a" ∷ codes "b" ∷ []
unfolding rounds consume_round
handled_both = refl

rounds_lem_example :
    let (progress, st') = rounds marked sample handle stop (7 ∷ 8 ∷ []) (codes "w") 5 waiting in
    (progress ≡ going)
    × (st'.world ≡ work marked sample handle (sample.undelivered waiting.server) [])
    × (sample.undelivered st'.server ≡ [])
    × ((x : Text)
        → contains x (sample.pending st'.server) ≡ (
            not (contains x (ids (sample.undelivered waiting.server)))
            && contains x (sample.pending waiting.server)))
unfolding decode
rounds_lem_example =
    rounds_lem marked sample handle stop (λ m w. refl) (λ w. refl) (codes "w") 5 (omega arith)
      (7 ∷ 8 ∷ []) waiting refl (omega arith) (refl, (refl, tt))

abbrev ungrouped : State sample (List Text)
ungrouped = record { server = record waiting.server { group = false }; world = [] }

run_skips_example :
    let out = run marked sample handle (λ w. true) (7 ∷ 8 ∷ []) (codes "w") 5 ungrouped in
    (out.0 ≡ going)
    × (out.1.world ≡ [])
    × (sample.entries out.1.server ≡ sample.entries ungrouped.server)
run_skips_example =
    run_skips marked sample handle (λ w. true) (codes "w") 5 (7 ∷ 8 ∷ []) ungrouped refl

-- A third message has failed before.
abbrev failed : State sample (List Text)
failed = record { server = record waiting.server { pending = (3 ∷ []) ∷ [] }; world = [] }

rounds-IsStuck_example :
    IsStuck sample
      (3 ∷ [])
      (rounds marked sample handle stop (7 ∷ 8 ∷ []) (codes "w") 5 failed).1.server
unfolding contains text_eq
rounds-IsStuck_example =
    rounds-IsStuck sample (3 ∷ []) marked handle stop (codes "w") 5 (7 ∷ 8 ∷ []) failed
      (record { grouped = refl; pending = refl; delivered = refl })
