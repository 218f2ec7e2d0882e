-- ===== src/Queue/Work.antt =====
-- A worker that is left alone handles all that is waiting, in its order.
use redis_project.Base.{
  ℕ, zero, suc, ◌≤◌, ◌<◌, ◌≡◌, refl, sym, ap, ◌∙◌, Bool, true, false, not, ◌&&◌, some, List, [],
  ◌∷◌, ◌++◌, Text, length, length-drop, take, drop, arith,
}
use mathlib.Core.Option
use mathlib.Core.Path.{subst}
use redis_project.Queue.{
  Json, StreamMessage, State, Progress, going, stopped, raised, decode, ack, process, process_rows,
  rounds, go_on,
}
use redis_project.Queue.Drained.{consume_round_reads}
use redis_project.Queue.Ids.{contains-append, contains-ids-split, take-drop}
use redis_project.Redis.Expiring.{contains}
use redis_project.Redis.Groups.{Entry, GroupServer, ids}

nil_of_length : (rows : List Entry) → length rows ≤ 0 → rows ≡ []
nil_of_length [] h = refl
nil_of_length (e ∷ rows) h = absurd (omega arith)

go_on_going :
    {g : GroupServer} {W : Type 0} (o : Progress × State g W)
    (more : State g W → Progress × State g W)
    → o.0 ≡ going
    → go_on o more ≡ more o.1
unfolding go_on
go_on_going (going, st) more e = refl
go_on_going (stopped, st) more e = cc
go_on_going (raised, st) more e = cc

module _ {P : Type 0} (j : Json P) where
  -- The message that an entry stands for.
  abbrev pub message_of : Entry → StreamMessage P
  message_of (id, raw) = record {
    message_id = id;
    payload = Option.get_or (decode j raw) j.nothing;
  }

  abbrev pub AllDecode : List Entry → Type 0
  AllDecode [] = Unit
  AllDecode (e ∷ rows) = (decode j e.1 ≡ some (message_of e).payload) × AllDecode rows

  AllDecode-take : (n : ℕ) (rows : List Entry) → AllDecode rows → AllDecode (take n rows)
  AllDecode-take zero rows h = tt
  AllDecode-take (suc n) [] h = tt
  AllDecode-take (suc n) (e ∷ rows) h = (h.0, AllDecode-take n rows h.1)

  AllDecode-drop : (n : ℕ) (rows : List Entry) → AllDecode rows → AllDecode (drop n rows)
  AllDecode-drop zero rows h = h
  AllDecode-drop (suc n) [] h = tt
  AllDecode-drop (suc n) (e ∷ rows) h = AllDecode-drop n rows h.1

  module _ (g : GroupServer) {W : Type 0} (handle : StreamMessage P → W → Bool × W) where
    -- The handler's effect for each entry, one after another.
    abbrev pub work : List Entry → W → W
    work [] w = w
    work (e ∷ rows) w = work rows (handle (message_of e) w).1

    work-append : (l r : List Entry) (w : W) → work (l ++ r) w ≡ work r (work l w)
    work-append [] r w = refl
    work-append (e ∷ l) r w = work-append l r (handle (message_of e) w).1

    -- All rows have been worked on and acknowledged, and nothing else has happened to the stream.
    record IsWorked (rows : List Entry) (st : State g W) (out : Progress × State g W) : Type 0 where
      progress : out.0 ≡ going
      world : out.1.world ≡ work rows st.world
      grouped : g.has_group out.1.server ≡ g.has_group st.server
      left : g.undelivered out.1.server ≡ g.undelivered st.server
      acked :
          (x : Text)
          → contains x (g.pending out.1.server)
            ≡ (not (contains x (ids rows)) && contains x (g.pending st.server))

    module _ (stop : W → Bool) (succeeds : (m : StreamMessage P) (w : W) → (handle m w).0 ≡ true)
        (never : (w : W) → stop w ≡ false) where
      process_rows-IsWorked :
          (rows : List Entry) (st : State g W)
          → AllDecode rows
          → IsWorked rows st (process_rows j g handle stop rows st)
      unfolding process_rows process ack contains
      process_rows-IsWorked [] st h = record {
        progress = refl;
        world = refl;
        grouped = refl;
        left = refl;
        acked = λ x. refl;
      }
      process_rows-IsWorked ((id, raw) ∷ rows) st h =
          let m = message_of (id, raw) in
          let (group, _, left, others) = g.xack_lem st.server id in
          let rest =
            process_rows-IsWorked rows
              (record { server = g.xack st.server id; world = (handle m st.world).1 }) h.1 in
          rw (h.0, process_rows, never st.world, succeeds m st.world, process)
            (record {
              progress = rest.progress;
              world = rest.world;
              grouped = rest.grouped ∙ group;
              left = rest.left ∙ left;
              acked = λ x.
                  let before = rest.acked x in let one = others x in ground (arith, before, one);
            })

      module _ (consumer : Text) (batch : ℕ) (some_rows : 0 < batch) where
        -- With a handler that always returns, data that is JSON and no signal to stop, a worker that
        -- is alone with its stream and makes as many rounds as messages are waiting handles each of
        -- them, in the order of publication and once, and acknowledges them all: nothing is left
        -- to deliver, and only what was pending before stays pending. The loop is still going.
        pub rounds_lem :
            (times : List ℕ) (st : State g W)
            → g.has_group st.server ≡ true
            → length (g.undelivered st.server) ≤ length times
            → AllDecode (g.undelivered st.server)
            → let (progress, st') = rounds j g handle stop times consumer batch st in
              (progress ≡ going)
              × (st'.world ≡ work (g.undelivered st.server) st.world)
              × (g.undelivered st'.server ≡ [])
              × ((x : Text)
                  → contains x (g.pending st'.server) ≡ (
                      not (contains x (ids (g.undelivered st.server)))
                      && contains x (g.pending st.server)))
        unfolding rounds contains
        rounds_lem [] st grouped few h =
            let empty = nil_of_length (g.undelivered st.server) few in
            (
              refl,
              ap (λ l. work l st.world) (sym empty),
              empty,
              λ x.
                  ap (λ l. not (contains x (ids l)) && contains x (g.pending st.server))
                    (sym empty),
            )
        rounds_lem (now ∷ times) st grouped few h =
            let waiting = g.undelivered st.server in
            let (s', answer, group, _, left, pending) =
              g.read_lem st.server now consumer batch grouped in
            let st1 : State g W = record { server = s'; world = st.world } in
            let done =
              process_rows-IsWorked (take batch waiting) st1 (AllDecode-take batch waiting h) in
            let st2 = (process_rows j g handle stop (take batch waiting) st1).1 in
            let remains = done.left ∙ left in
            let shorter = length-drop batch waiting in
            let rest =
              rounds_lem times st2 (done.grouped ∙ group) (let e = ap length remains in omega arith)
                (subst AllDecode (sym remains) (AllDecode-drop batch waiting h)) in
            let round = consume_round_reads j g handle stop consumer batch now st _ s' answer in
            rw
              (
                round,
                go_on_going (process_rows j g handle stop (take batch waiting) st1)
                    (rounds j g handle stop times consumer batch) done.progress,
              )
              (
                rest.0,
                rest.1
                    ∙ ap (λ l. work l st2.world) remains
                    ∙ ap (work (drop batch waiting)) done.world
                    ∙ sym (work-append (take batch waiting) (drop batch waiting) st.world)
                    ∙ ap (λ l. work l st.world) (take-drop batch waiting),
                rest.2,
                λ x.
                    let after = rest.3 x in
                    let later = ap (λ l. contains x (ids l)) remains in
                    let now_done = done.acked x in
                    let delivered =
                      ap (contains x) pending ∙ contains-append x (g.pending st.server) _ in
                    let split = contains-ids-split x batch waiting in
                    ground (arith, after, later, now_done, delivered, split),
              )
