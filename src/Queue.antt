-- ===== src/Queue.antt =====
-- `StreamQueue` of app/redis_layer/queue.py, and the loops of the workers in app/workers around it.
use redis_project.Base.{
  ℕ, zero, suc, ◌≡◌, Bool, true, false, Option, none, some, List, [], ◌∷◌, Text, length,
  if◌then◌else◌,
}
use redis_project.Redis.Groups.{Entry, GroupServer}
pub mod Ids
pub mod Delivered
pub mod Drained
pub mod Start
pub mod Stuck
pub mod Work

pub record StreamMessage (P : Type 0) : Type 0 where
  pub message_id : Text
  pub payload : P

-- JSON by orjson, and the empty payload.
pub record Json (P : Type 0) : Type 0 where
  pub dumps : P → Text
  pub loads : Text → Option P
  pub loads_dumps : (p : P) → loads (dumps p) ≡ some p
  pub nothing : P

-- `_decode`; `none` is the exception for a text that is no JSON.
unfoldable pub decode : {P : Type 0} → Json P → Text → Option P
decode j [] = some j.nothing
decode j (c ∷ raw) = j.loads (c ∷ raw)

-- A worker's loop goes on, has been stopped by a signal, or has ended by an exception.
pub data Progress : Type 0 where
  going stopped raised : Progress

-- The stream, and what a worker works on beside it: the databases and the feeds.
pub record State (g : GroupServer) (W : Type 0) : Type 0 where
  pub server : g.Server
  pub world : W

module _ {g : GroupServer} {W : Type 0} where
  -- The loop goes on from a round that has neither been stopped nor raised.
  unfoldable pub go_on :
      Progress × State g W → (State g W → Progress × State g W) → Progress × State g W
  go_on (going, st) more = more st
  go_on (stopped, st) more = (stopped, st)
  go_on (raised, st) more = (raised, st)

module _ {P : Type 0} (j : Json P) (g : GroupServer) where
  open g use {Server}

  -- BUSYGROUP is caught.
  unfoldable pub ensure_group : Server → Server
  ensure_group s = (g.xgroup_create s).1

  unfoldable pub publish : Server → P → ℕ → Text × Server
  publish s payload maxlen = g.xadd s (j.dumps payload) maxlen

  unfoldable pub ack : Server → Text → Server
  ack s message_id = g.xack s message_id

  -- The list that `reclaim_idle` makes of the entries.
  unfoldable pub decode_all : List Entry → Option (List (StreamMessage P))
  unfolding decode
  decode_all [] = some []
  decode_all ((id, raw) ∷ rows) =
      let rest = decode_all rows in
      elim (decode j raw) [
        | none ↦ none
        | some payload ↦ elim rest [
          | none ↦ none
          | some messages ↦ some (record { message_id = id; payload = payload } ∷ messages)
        ]
      ]

  unfoldable pub reclaim_idle : Server → ℕ → Text → ℕ → ℕ → Option (List (StreamMessage P)) × Server
  unfolding decode_all
  reclaim_idle s now consumer min_idle count =
      let (claimed, s') = g.xautoclaim s now consumer min_idle count in (decode_all claimed, s')

  unfoldable pub pending_count : Server → ℕ
  pending_count s = length (g.pending s)

  unfoldable pub stream_length : Server → ℕ
  stream_length s = length (g.entries s)

  module _ {W : Type 0} where
    -- `_handle`, which returns, or raises after some of its effects.
    module _ (handle : StreamMessage P → W → Bool × W) where
      -- The `try` statement around a message: it is acknowledged only if the handler has returned.
      unfoldable pub process : StreamMessage P → State g W → State g W
      unfolding ack
      process m st =
          let (ok, world) = handle m st.world in
          record { server = if ok then ack st.server m.message_id else st.server; world = world }

      -- The body of `reclaim_loop`; an exception of `reclaim_idle` is logged.
      unfoldable pub process_all : List (StreamMessage P) → State g W → State g W
      unfolding process
      process_all [] st = st
      process_all (m ∷ messages) st = process_all messages (process m st)

      unfoldable pub reclaim_round : ℕ → Text → State g W → State g W
      unfolding process_all reclaim_idle
      reclaim_round now consumer st =
          let (messages, s) = reclaim_idle st.server now consumer 60000 100 in
          let st' : State g W = record { server = s; world = st.world } in
          elim messages [ none ↦ st' | some claimed ↦ process_all claimed st' ]

      -- Whether the signal has come, by the state.
      module _ (stop : W → Bool) where
        -- The messages of one reply, as `consume` yields them.
        unfoldable pub process_rows : List Entry → State g W → Progress × State g W
        unfolding process decode
        process_rows [] st = (going, st)
        process_rows ((id, raw) ∷ rows) st = elim (decode j raw) [
          | none ↦ (raised, st)
          | some payload ↦
              if stop st.world
              then (stopped, st)
              else process_rows rows (process (record { message_id = id; payload = payload }) st)
        ]

        -- One round of the loop in `consume`, with the work on what it yields.
        unfoldable pub consume_round : ℕ → Text → ℕ → State g W → Progress × State g W
        unfolding process_rows
        consume_round now consumer batch st = elim (g.xreadgroup st.server now consumer batch) [
          | none ↦ (raised, st)
          | some (rows, s) ↦ process_rows rows (record { server = s; world = st.world })
        ]

        -- Some rounds, one for each time given.
        unfoldable pub rounds : List ℕ → Text → ℕ → State g W → Progress × State g W
        unfolding go_on
        rounds [] consumer batch st = (going, st)
        rounds (now ∷ times) consumer batch st =
            go_on (consume_round now consumer batch st) (rounds times consumer batch)

        -- `run` up to the end of the loop. `consume` ensures the group once more.
        unfoldable pub run : List ℕ → Text → ℕ → State g W → Progress × State g W
        unfolding rounds ensure_group
        run times consumer batch st =
            rounds times consumer batch
              (record { server = ensure_group (ensure_group st.server); world = st.world })
