-- ===== src/Queue/Stuck.antt =====
-- A message whose handler has failed, in a worker that never claims.
use redis_project.Base.{
  ℕ, ◌≡◌, refl, ap, ◌∙◌, inl, inr, Bool, true, false, List, [], ◌∷◌, Text, text_eq, take, drop,
  Bool-cases, Option-cases, arith,
}
use redis_project.Queue.{
  Json, StreamMessage, State, Progress, going, stopped, raised, decode, ack, process, process_rows,
  rounds, go_on,
}
use redis_project.Queue.Drained.{consume_round_reads}
use redis_project.Queue.Ids.{contains-append, contains-ids-split}
use redis_project.Redis.Expiring.{contains}
use redis_project.Redis.Groups.{Entry, GroupServer, ids}

module _ (g : GroupServer) (x : Text) where
  -- The message has been delivered, and has not been acknowledged.
  pub record IsStuck (s : g.Server) : Type 0 where
    pub grouped : g.has_group s ≡ true
    pub pending : contains x (g.pending s) ≡ true
    pub delivered : contains x (ids (g.undelivered s)) ≡ false

  go_on-IsStuck :
      {W : Type 0} (o : Progress × State g W) (more : State g W → Progress × State g W)
      → IsStuck o.1.server
      → ((st : State g W) → IsStuck st.server → IsStuck (more st).1.server)
      → IsStuck (go_on o more).1.server
  unfolding go_on
  go_on-IsStuck (going, st) more h next = next st h
  go_on-IsStuck (stopped, st) more h next = h
  go_on-IsStuck (raised, st) more h next = h

  ack-IsStuck :
      (s : g.Server) (id : Text) → text_eq x id ≡ false → IsStuck s → IsStuck (g.xack s id)
  ack-IsStuck s id differs h =
      let (group, _, left, others) = g.xack_lem s id in
      record {
        grouped = group ∙ h.grouped;
        pending = others x ∙ rw (differs, h.pending) refl;
        delivered = ap (λ l. contains x (ids l)) left ∙ h.delivered;
      }

  module _ {P : Type 0} (j : Json P) {W : Type 0} (handle : StreamMessage P → W → Bool × W)
      (stop : W → Bool) where
    process-IsStuck :
        (m : StreamMessage P) (st : State g W)
        → text_eq x m.message_id ≡ false
        → IsStuck st.server
        → IsStuck (process j g handle m st).server
    unfolding process ack
    process-IsStuck m st differs h = elim (Bool-cases (handle m st.world).0) [
      | inl done ↦ rw (done, process) (ack-IsStuck st.server m.message_id differs h)
      | inr failed ↦ rw (failed, process) h
    ]

    process_rows-IsStuck :
        (rows : List Entry) (st : State g W)
        → contains x (ids rows) ≡ false
        → IsStuck st.server
        → IsStuck (process_rows j g handle stop rows st).1.server
    unfolding process_rows contains
    process_rows-IsStuck [] st other h = h
    process_rows-IsStuck ((id, raw) ∷ rows) st other h = elim (Option-cases (decode j raw)) [
      | inl broken ↦ rw (broken, process_rows) h
      | inr (payload, read) ↦ elim (Bool-cases (stop st.world)) [
        | inl over ↦ rw (read, process_rows, over) h
        | inr on ↦
            let m : StreamMessage P = record { message_id = id; payload = payload } in
            let differs : text_eq x id ≡ false = ground arith in
            let rest : contains x (ids rows) ≡ false = ground arith in
            rw (read, process_rows, on)
              (process_rows-IsStuck rows (process j g handle m st) rest
                (process-IsStuck m st differs h))
      ]
    ]

    module _ (consumer : Text) (batch : ℕ) where
      -- A message that has been delivered and not acknowledged, as its handler has failed, stays
      -- pending in a worker that only consumes: however many rounds it makes, and whatever the
      -- handler does, the message is neither acknowledged nor delivered again.
      pub rounds-IsStuck :
          (times : List ℕ) (st : State g W)
          → IsStuck st.server
          → IsStuck (rounds j g handle stop times consumer batch st).1.server
      unfolding rounds
      rounds-IsStuck [] st h = h
      rounds-IsStuck (now ∷ times) st h =
          let (s', answer, group, _, left, pending) =
            g.read_lem st.server now consumer batch h.grouped in
          let round = consume_round_reads j g handle stop consumer batch now st _ s' answer in
          let split = contains-ids-split x batch (g.undelivered st.server) in
          let first : contains x (ids (take batch (g.undelivered st.server))) ≡ false =
            let d = h.delivered in ground (arith, split, d) in
          let later : contains x (ids (drop batch (g.undelivered st.server))) ≡ false =
            let d = h.delivered in ground (arith, split, d) in
          let read : IsStuck s' = record {
            grouped = group;
            pending =
                ap (contains x) pending
                ∙ contains-append x (g.pending st.server) _
                ∙ rw (h.pending) refl;
            delivered = ap (λ l. contains x (ids l)) left ∙ later;
          } in
          rw (round) (
            go_on-IsStuck _ (rounds j g handle stop times consumer batch)
              (process_rows-IsStuck (take batch (g.undelivered st.server))
                (record { server = s'; world = st.world }) first read)
              (rounds-IsStuck times))
