-- ===== src/Tests/Groups.antt =====
-- A stream with a consumer group, as the entries before and after the last delivered one.
use redis_project.Base.{
  ℕ, zero, suc, ◌+◌, ◌≤◌, ◌<◌, ◌≡◌, refl, sym, ap, ◌∙◌, inl, inr, Bool, true, false, ◌||◌, Option,
  none, some, List, [], ◌∷◌, ◌++◌, Text, text_eq, text_eq_ne, text_eq_sound, leb, length, take,
  drop, keep, if◌then◌else◌, Bool-cases, arith,
}
use mathlib.Core.List.{append-nil, append_assoc}
use redis_project.Queue.Ids.{contains-ids-append, take-drop}
use redis_project.Redis.Expiring.{contains}
use redis_project.Redis.Groups.{Entry, GroupServer, ids}
use redis_project.Tests.Expiring.{without, contains-without}

pub record Stream : Type 0 where
  pub group : Bool
  pub delivered : List Entry
  pub waiting : List Entry
  pub pending : List Text

-- An id that is longer than all.
abbrev pub zeros : ℕ → Text
zeros zero = []
zeros (suc n) = 0 ∷ zeros n

abbrev pub total : List Text → ℕ
total [] = 1
total (x ∷ l) = length x + total l

pub length-zeros : (n : ℕ) → length (zeros n) ≡ n
length-zeros zero = refl
length-zeros (suc n) = omega (arith, length-zeros n)

pub total_pos : (l : List Text) → 0 < total l
total_pos [] = omega arith
total_pos (x ∷ l) = omega (arith, total_pos l)

pub contains_longer : (n : ℕ) (l : List Text) → total l ≤ n → contains (zeros n) l ≡ false
unfolding contains
contains_longer n [] h = refl
contains_longer n (x ∷ l) h =
    let differs : text_eq (zeros n) x ≡ false =
      text_eq_ne (zeros n) x
        (λ e. let e' = ap length e in absurd (omega (arith, length-zeros n, total_pos l))) in
    rw differs (contains_longer n l (omega arith))

pub or_true : (a b : Bool) → b ≡ true → (a || b) ≡ true
or_true a b e = ground arith

pub contains-ids-keep :
    (x : Text) (l : List Text) (rows : List Entry)
    → contains x (ids (keep (λ (e : Entry). contains e.0 l) rows)) ≡ true
    → contains x l ≡ true
unfolding contains
contains-ids-keep x l [] h = cc
contains-ids-keep x l ((id, raw) ∷ rows) h =
    ground (arith, contains-ids-keep x l rows, text_eq_sound x id)

pub contains_last :
    (x : Text) (l : List Entry) (id v : Text)
    → contains x (ids (l ++ (id, v) ∷ [])) ≡ (contains x (ids l) || text_eq x id)
unfolding contains
contains_last x l id v = contains-ids-append x l _ ∙ ground arith

abbrev pub id_for : Stream → Text
id_for s = zeros (total (ids (s.delivered ++ s.waiting)))

abbrev pub created : Stream → Bool → Bool × Stream
created s true = (false, s)
created s false = (
  true,
  record { group = true; delivered = s.delivered ++ s.waiting; waiting = []; pending = [] },
)

abbrev pub read : Stream → ℕ → Bool → Option (List Entry × Stream)
read s count false = none
read s count true = some (
  take count s.waiting,
  record s {
    group = true;
    delivered = s.delivered ++ take count s.waiting;
    waiting = drop count s.waiting;
    pending = s.pending ++ ids (take count s.waiting);
  },
)

-- Everything that has been idle for long enough.
abbrev pub claimed : Stream → ℕ → ℕ → List Entry
claimed s now min_idle =
    if leb min_idle now
    then keep (λ (e : Entry). contains e.0 s.pending) (s.delivered ++ s.waiting)
    else []

pub claimed_lem :
    (s : Stream) (now min_idle : ℕ) (x : Text)
    → contains x (ids (claimed s now min_idle)) ≡ true
    → (contains x s.pending ≡ true) × (min_idle ≤ now)
unfolding contains
claimed_lem s now min_idle x e = elim (Bool-cases (leb min_idle now)) [
  | inl idle ↦ (
    contains-ids-keep x s.pending (s.delivered ++ s.waiting) (
        let e' : contains x
              (ids (keep (λ (e : Entry). contains e.0 s.pending) (s.delivered ++ s.waiting)))
            ≡ true =
          rw idle at e in
        e'),
    ground arith,
  )
  | inr busy ↦ let e' : contains x [] ≡ true = rw busy at e in cc
]

pub created_new :
    (s : Stream)
    → s.group ≡ false
    → let (ok, s') = created s s.group in
      (ok ≡ true)
      × (s'.group ≡ true)
      × (s'.waiting ≡ [])
      × (s'.pending ≡ [])
      × (s'.delivered ++ s'.waiting ≡ s.delivered ++ s.waiting)
created_new s e = rw e (refl, refl, refl, refl, append-nil _)

pub read_grouped :
    (s : Stream) (count : ℕ)
    → s.group ≡ true
    → (s' : Stream) × (read s count s.group ≡ some (take count s.waiting, s'))
      × (s'.group ≡ true)
      × (s'.delivered ++ s'.waiting ≡ s.delivered ++ s.waiting)
      × (s'.waiting ≡ drop count s.waiting)
      × (s'.pending ≡ s.pending ++ ids (take count s.waiting))
read_grouped s count e = (
  _,
  ap (read s count) e,
  refl,
  append_assoc s.delivered (take count s.waiting) (drop count s.waiting)
      ∙ ap (λ l. s.delivered ++ l) (take-drop count s.waiting),
  refl,
  refl,
)

abbrev pub sample : GroupServer
sample = record {
  Server = Stream;
  has_group = λ s. s.group;
  entries = λ s. s.delivered ++ s.waiting;
  undelivered = λ s. s.waiting;
  pending = λ s. s.pending;
  idle = λ s now x. now;
  xgroup_create = λ s. created s s.group;
  xadd = λ s v maxlen. (id_for s, record s { waiting = s.waiting ++ (id_for s, v) ∷ [] });
  xreadgroup = λ s now consumer count. read s count s.group;
  xack = λ s id. record s { pending = without id s.pending };
  xautoclaim = λ s now consumer min_idle count. (claimed s now min_idle, s);
  create_new = created_new;
  create_busy = λ s e. ap (created s) e;
  xadd_lem = λ s v maxlen few. (
    sym (append_assoc s.delivered s.waiting _),
    contains_longer _ _ (omega arith),
    refl,
    λ e. refl,
    refl,
  );
  xadd_trim = λ s v maxlen. (
    refl,
    refl,
    λ x e stored.
        let same = contains_last x s.waiting (id_for s) v in
        (
          sym (contains_last x (s.delivered ++ s.waiting) (id_for s) v)
              ∙ ap (λ l. contains x (ids l)) (append_assoc s.delivered s.waiting _)
              ∙ stored,
          same,
        ),
  );
  read_no_group = λ s now consumer count e. ap (read s count) e;
  read_lem = λ s now consumer count e. read_grouped s count e;
  xack_lem = λ s id. (refl, refl, refl, λ x. contains-without x id s.pending);
  claim_lem = λ s now consumer min_idle count.
      (refl, refl, refl, λ x e. refl, λ x e. e, claimed_lem s now min_idle);
}
