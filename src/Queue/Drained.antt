-- ===== src/Queue/Drained.antt =====
-- What a worker's loop does with what is waiting for it.
use redis_project.Base.{
  ℕ, zero, suc, ◌≡◌, refl, ap, ◌∙◌, Bool, true, false, some, List, [], ◌∷◌, Text, take, drop,
}
use redis_project.Queue.{
  Json, StreamMessage, State, Progress, going, ensure_group, process_rows, consume_round, rounds,
  run,
}
use redis_project.Redis.Groups.{Entry, GroupServer}

take-nil : (n : ℕ) → take {A = Entry} n [] ≡ []
take-nil zero = refl
take-nil (suc n) = refl

drop-nil : (n : ℕ) → drop {A = Entry} n [] ≡ []
drop-nil zero = refl
drop-nil (suc n) = refl

module _ {P : Type 0} (j : Json P) (g : GroupServer) {W : Type 0}
    (handle : StreamMessage P → W → Bool × W) (stop : W → Bool) (consumer : Text) (batch : ℕ) where
  -- Nothing was delivered or done, and the loop has not ended.
  record IsIdle (st : State g W) (out : Progress × State g W) : Type 0 where
    progress : out.0 ≡ going
    world : out.1.world ≡ st.world
    entries : g.entries out.1.server ≡ g.entries st.server

  -- A round with its reply: the rows are processed on the server that has delivered them.
  pub consume_round_reads :
      (now : ℕ) (st : State g W) (rows : List Entry) (s : g.Server)
      → g.xreadgroup st.server now consumer batch ≡ some (rows, s)
      → consume_round j g handle stop now consumer batch st
        ≡ process_rows j g handle stop rows (record { server = s; world = st.world })
  unfolding consume_round
  consume_round_reads now st rows s e = rw (e, consume_round) refl

  rounds-IsIdle :
      (times : List ℕ) (st : State g W)
      → g.has_group st.server ≡ true
      → g.undelivered st.server ≡ []
      → IsIdle st (rounds j g handle stop times consumer batch st)
  unfolding rounds process_rows
  rounds-IsIdle [] st grouped empty = record { progress = refl; world = refl; entries = refl }
  rounds-IsIdle (now ∷ times) st grouped empty =
      let (s', answer, group, entries, left, _) = g.read_lem st.server now consumer batch grouped in
      let nothing = ap (take batch) empty ∙ take-nil batch in
      let again =
        rounds-IsIdle times (record { server = s'; world = st.world }) group
          (left ∙ ap (drop batch) empty ∙ drop-nil batch) in
      let round = consume_round_reads now st _ s' (answer ∙ ap (λ l. some (l, s')) nothing) in
      rw (round) (record {
        progress = again.progress;
        world = again.world;
        entries = again.entries ∙ entries;
      })

  -- A worker that comes to a stream without a group skips all that was published before: the entries
  -- stay, and as long as nothing is published afterwards, however many rounds it makes, nothing is
  -- handled. The loop does not end either, whether or not the worker has been told to stop.
  pub run_skips :
      (times : List ℕ) (st : State g W)
      → g.has_group st.server ≡ false
      → let out = run j g handle stop times consumer batch st in
        (out.0 ≡ going) × (out.1.world ≡ st.world) × (g.entries out.1.server ≡ g.entries st.server)
  unfolding run ensure_group
  run_skips times st new =
      let (_, group, undelivered, _, entries) = g.create_new st.server new in
      let s = (g.xgroup_create st.server).1 in
      let idle = rounds-IsIdle times (record { server = s; world = st.world }) group undelivered in
      rw (g.create_busy s group, run, ensure_group)
        (idle.progress, idle.world, idle.entries ∙ entries)
