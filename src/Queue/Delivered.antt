-- ===== src/Queue/Delivered.antt =====
-- What becomes of a published message, whatever the workers do.
use redis_project.Base.{
  ℕ, ◌≡◌, refl, ◌⊎◌, sym, ap, ◌∙◌, inl, inr, Bool, true, false, not, ◌||◌, some, List, [], ◌∷◌,
  Text, length, ltb, ltb→lt, Bool-cases, arith,
}
use mathlib.Core.Path.{subst}
use redis_project.Queue.{
  Json, StreamMessage, State, ensure_group, publish, ack, reclaim_idle, process,
}
use redis_project.Queue.Ids.{contains-append, contains-ids-append, contains-ids-split}
use redis_project.Redis.Expiring.{contains}
use redis_project.Redis.Groups.{Entry, GroupServer, ids}

module _ {P : Type 0} (j : Json P) (g : GroupServer) {W : Type 0}
    (handle : StreamMessage P → W → Bool × W) where
  -- The state, with the ids that have been published and those whose handler has returned.
  -- `filled` tells whether a publish has found the stream at its `maxlen`, from where on Redis may
  -- trim the oldest entries, delivered or not.
  pub record System : Type 0 where
    pub state : State g W
    pub published : List Text
    pub handled : List Text
    pub filled : Bool

  abbrev pub noted : Bool → Text → List Text → List Text
  noted true id l = id ∷ l
  noted false id l = l

  -- What producers and workers do, in any order. Messages that a worker has read or claimed may be
  -- processed at any time, more than once, or never, as when the worker dies.
  pub data Step : System → System → Type 0 where
    ensures :
        (y : System)
        → Step y (record y {
          state = record { server = ensure_group j g y.state.server; world = y.state.world };
        })
    publishes :
        (y : System) (payload : P) (maxlen : ℕ)
        → Step y (record y {
          state = record {
            server = (publish j g y.state.server payload maxlen).1;
            world = y.state.world;
          };
          published = (publish j g y.state.server payload maxlen).0 ∷ y.published;
          filled = y.filled || not (ltb (length (g.entries y.state.server)) maxlen);
        })
    reads :
        (y : System) (now : ℕ) (consumer : Text) (batch : ℕ) (rows : List Entry) (s : g.Server)
        → g.xreadgroup y.state.server now consumer batch ≡ some (rows, s)
        → Step y (record y { state = record { server = s; world = y.state.world } })
    claims :
        (y : System) (now : ℕ) (consumer : Text) (min_idle count : ℕ)
        → Step y (record y {
          state = record {
            server = (reclaim_idle j g y.state.server now consumer min_idle count).1;
            world = y.state.world;
          };
        })
    processes :
        (y : System) (m : StreamMessage P)
        → Step y (record y {
          state = process j g handle m y.state;
          handled = noted (handle m y.state.world).0 m.message_id y.handled;
        })
    works :
        (y : System) (w : W)
        → Step y (record y { state = record { server = y.state.server; world = w } })

  pub data Reach (y : System) : System → Type 0 where
    here : Reach y y
    next : {u v : System} → Reach y u → Step u v → Reach y v

  -- Where a message may be: not delivered yet, pending, or handled.
  abbrev found : g.Server → List Text → Text → Bool
  found s handled x =
      contains x (ids (g.undelivered s)) || (contains x (g.pending s) || contains x handled)

  record IsSafe (s : g.Server) (published handled : List Text) (filled : Bool) : Type 0 where
    grouped : g.has_group s ≡ true
    untrimmed :
        (x : Text)
        → filled ≡ false
        → contains x published ≡ true
        → contains x (ids (g.entries s)) ≡ true
    accounted :
        (x : Text)
        → contains x published ≡ true
        → contains x (ids (g.entries s)) ≡ true
        → found s handled x ≡ true

  xadd-IsSafe :
      (s : g.Server) (v : Text) (maxlen : ℕ) (published handled : List Text) (filled : Bool)
      → IsSafe s published handled filled
      → IsSafe
          (g.xadd s v maxlen).1
          ((g.xadd s v maxlen).0 ∷ published)
          handled
          (filled || not (ltb (length (g.entries s)) maxlen))
  unfolding contains
  xadd-IsSafe s v maxlen published handled filled h =
      let (id, s') = g.xadd s v maxlen in
      let (group, pending, trim) = g.xadd_trim s v maxlen in
      record {
        grouped = group ∙ h.grouped;
        untrimmed = λ x e p.
            let old : (filled ≡ false) × (ltb (length (g.entries s)) maxlen ≡ true) =
              ground arith in
            let entries = (g.xadd_lem s v maxlen (ltb→lt (length (g.entries s)) maxlen old.1)).0 in
            let before = h.untrimmed x old.0 in
            ap (λ l. contains x (ids l)) entries
            ∙ contains-ids-append x (g.entries s) _
            ∙ ground (arith, before);
        accounted = λ x p there.
            let (was, waits) = trim x h.grouped there in
            let before = h.accounted x in
            let same = ap (contains x) pending in ground (arith, before, was, waits, same);
      }

  read-IsSafe :
      (s s' : g.Server) (now : ℕ) (consumer : Text) (batch : ℕ) (rows : List Entry)
      (published handled : List Text) (filled : Bool)
      → g.xreadgroup s now consumer batch ≡ some (rows, s')
      → IsSafe s published handled filled
      → IsSafe s' published handled filled
  unfolding contains
  read-IsSafe s s' now consumer batch rows published handled filled e h =
      let (s'', answer, group, entries, left, pending) =
        g.read_lem s now consumer batch h.grouped in
      let same : s'' ≡ s' = cc in
      subst (λ y. IsSafe y published handled filled) same
        (record {
          grouped = group;
          untrimmed = λ x e p. ap (λ l. contains x (ids l)) entries ∙ h.untrimmed x e p;
          accounted = λ x p there.
              let before = h.accounted x p (ap (λ l. contains x (ids l)) (sym entries) ∙ there) in
              let here = ap (contains x) pending ∙ contains-append x (g.pending s) _ in
              let split = contains-ids-split x batch (g.undelivered s) in
              let waiting = ap (λ l. contains x (ids l)) left in
              ground (arith, before, here, split, waiting);
        })

  claim-IsSafe :
      (s : g.Server) (now : ℕ) (consumer : Text) (min_idle count : ℕ)
      (published handled : List Text) (filled : Bool)
      → IsSafe s published handled filled
      → IsSafe (g.xautoclaim s now consumer min_idle count).1 published handled filled
  claim-IsSafe s now consumer min_idle count published handled filled h =
      let (group, entries, undelivered, kept, _, _) = g.claim_lem s now consumer min_idle count in
      record {
        grouped = group ∙ h.grouped;
        untrimmed = λ x e p. ap (λ l. contains x (ids l)) entries ∙ h.untrimmed x e p;
        accounted = λ x p there.
            let stored = ap (λ l. contains x (ids l)) (sym entries) ∙ there in
            let before = h.accounted x p stored in
            let waiting = ap (λ l. contains x (ids l)) undelivered in
            let stays = kept x stored in ground (arith, before, waiting, stays);
      }

  xack-IsSafe :
      (s : g.Server) (id : Text) (published handled : List Text) (filled : Bool)
      → IsSafe s published handled filled
      → IsSafe (g.xack s id) published (id ∷ handled) filled
  unfolding contains
  xack-IsSafe s id published handled filled h =
      let (group, entries, undelivered, others) = g.xack_lem s id in
      record {
        grouped = group ∙ h.grouped;
        untrimmed = λ x e p. ap (λ l. contains x (ids l)) entries ∙ h.untrimmed x e p;
        accounted = λ x p there.
            let stored = ap (λ l. contains x (ids l)) (sym entries) ∙ there in
            let before = h.accounted x p stored in
            let waiting = ap (λ l. contains x (ids l)) undelivered in
            ground (arith, before, waiting, others x);
      }

  process-IsSafe :
      (st : State g W) (m : StreamMessage P) (published handled : List Text) (filled : Bool)
      → IsSafe st.server published handled filled
      → IsSafe
          (process j g handle m st).server
          published
          (noted (handle m st.world).0 m.message_id handled)
          filled
  unfolding process ack
  process-IsSafe st m published handled filled h = elim (Bool-cases (handle m st.world).0) [
    | inl ok ↦ rw (ok, process) (xack-IsSafe st.server m.message_id published handled filled h)
    | inr failed ↦ rw (failed, process) h
  ]

  abbrev IsSafeSystem : System → Type 0
  IsSafeSystem y = IsSafe y.state.server y.published y.handled y.filled

  Step-IsSafeSystem : {y z : System} → Step y z → IsSafeSystem y → IsSafeSystem z
  unfolding ensure_group publish reclaim_idle
  Step-IsSafeSystem (ensures y) h = rw (g.create_busy y.state.server h.grouped, ensure_group) h
  Step-IsSafeSystem (publishes y payload maxlen) h =
      xadd-IsSafe y.state.server (j.dumps payload) maxlen y.published y.handled y.filled h
  Step-IsSafeSystem (reads y now consumer batch rows s e) h =
      read-IsSafe y.state.server s now consumer batch rows y.published y.handled y.filled e h
  Step-IsSafeSystem (claims y now consumer min_idle count) h =
      claim-IsSafe y.state.server now consumer min_idle count y.published y.handled y.filled h
  Step-IsSafeSystem (processes y m) h = process-IsSafe y.state m y.published y.handled y.filled h
  Step-IsSafeSystem (works y w) h = h

  Reach-IsSafeSystem : {y z : System} → Reach y z → IsSafeSystem y → IsSafeSystem z
  Reach-IsSafeSystem here h = h
  Reach-IsSafeSystem (next r e) h = Step-IsSafeSystem e (Reach-IsSafeSystem r h)

  -- Once the group exists, what becomes of a message that is published from then on, whatever
  -- producers and workers do, also where handlers raise and workers die: as long as it is in the
  -- stream it is still to be delivered, or pending, so that it can be claimed, or its handler has
  -- returned. It is in the stream at least until a publish finds as many entries as its `maxlen`.
  pub Reach-found :
      {y z : System}
      → g.has_group y.state.server ≡ true
      → y.published ≡ []
      → Reach y z
      → (x : Text) → contains x z.published ≡ true
      → (contains x (ids (g.entries z.state.server)) ≡ true
          → (contains x (ids (g.undelivered z.state.server)) ≡ true)
            ⊎ (contains x (g.pending z.state.server) ≡ true)
            ⊎ (contains x z.handled ≡ true))
        × (z.filled ≡ false → contains x (ids (g.entries z.state.server)) ≡ true)
  unfolding contains
  Reach-found {y} grouped none_yet r x e =
      let nothing : (x : Text) → contains x y.published ≡ false = λ x. rw none_yet refl in
      let start : IsSafeSystem y = record {
        grouped = grouped;
        untrimmed = λ x _ p. cc (nothing x);
        accounted = λ x p _. cc (nothing x);
      } in
      let end = Reach-IsSafeSystem r start in
      (
        λ stored. let there = end.accounted x e stored in ground (arith, there),
        λ few. end.untrimmed x few e,
      )
