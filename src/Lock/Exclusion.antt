-- ===== src/Lock/Exclusion.antt =====
-- Mutual exclusion: any number of lock objects on one key, their calls in any order.
use redis_project.Base.{
  ℕ, ◌+◌, ◌≤◌, ◌<◌, ◌≡◌, sym, ◌∙◌, ◌⊎◌, inl, inr, Bool, true, not, some, List, [], ◌∷◌, Text,
  text_eq, Bool-cases, Option-cases, arith, keep, if◌then◌else◌,
}
use mathlib.Core.Path.{subst}
use redis_project.Redis.Strings.{StringServer}
use redis_project.Lock.{RedisLock, World, release_lua, attempt, release}

-- A token and the time at which its hold on the key ends.
abbrev pub Lease : Type 0
Lease = Text × ℕ

abbrev pub Listed : Lease → List Lease → Type 0
Listed e [] = ⊥
Listed e (x ∷ l) = (e ≡ x) ⊎ Listed e l

abbrev AllLeases : (Lease → Type 0) → List Lease → Type 0
AllLeases P [] = Unit
AllLeases P (x ∷ l) = P x × AllLeases P l

AllLeases-Listed :
    (P : Lease → Type 0) (e : Lease) (l : List Lease) → AllLeases P l → Listed e l → P e
AllLeases-Listed P e [] h m = absurd m
AllLeases-Listed P e (x ∷ l) h (inl p) = subst P (sym p) h.0
AllLeases-Listed P e (x ∷ l) h (inr m) = AllLeases-Listed P e l h.1 m

AllLeases-keep :
    (P Q : Lease → Type 0) (p : Lease → Bool) (l : List Lease)
    → ((e : Lease) → p e ≡ true → P e → Q e)
    → AllLeases P l
    → AllLeases Q (keep p l)
AllLeases-keep P Q p [] f h = tt
AllLeases-keep P Q p (x ∷ l) f h = elim (Bool-cases (p x)) [
  | inl passes ↦ rw passes (f x passes h.0, AllLeases-keep P Q p l f h.1)
  | inr fails ↦ rw fails (AllLeases-keep P Q p l f h.1)
]

AllLeases-map :
    (P Q : Lease → Type 0) (l : List Lease)
    → ((e : Lease) → P e → Q e)
    → AllLeases P l
    → AllLeases Q l
AllLeases-map P Q [] f h = tt
AllLeases-map P Q (x ∷ l) f h = (f x h.0, AllLeases-map P Q l f h.1)

-- The leases of other tokens.
abbrev pub others : Text → List Lease → List Lease
others token = keep (λ (e : Lease). not (text_eq e.0 token))

module _ (r : StringServer) (key : Text) where
  open r use {Server, get}

  pub record System : Type 0 where
    pub world : World r
    pub leases : List Lease

  -- A successful attempt starts a lease of the lock's time to live; a release ends the lock's.
  unfoldable pub after_attempt : RedisLock → System → System
  unfolding attempt
  after_attempt lock y =
      let (ok, w) = attempt r lock y.world in
      record {
        world = w;
        leases = if ok then (lock.token, y.world.server_now + lock.ttl_ms) ∷ y.leases else y.leases;
      }

  unfoldable pub after_release : RedisLock → System → System
  unfolding release
  after_release lock y = record {
    world = (release r lock y.world).2;
    leases = if lock.acquired then others lock.token y.leases else y.leases;
  }

  -- One event: a lock object of this key tries to acquire or is released, time passes, or the
  -- server is used for other keys.
  pub data Step : System → System → Type 0 where
    tries : (y : System) (lock : RedisLock) → lock.key ≡ key → Step y (after_attempt lock y)
    releases : (y : System) (lock : RedisLock) → lock.key ≡ key → Step y (after_release lock y)
    passes :
        (y : System) (now loop_now : ℕ)
        → y.world.server_now ≤ now
        → Step y (record {
          world = record { server = y.world.server; server_now = now; loop_now = loop_now };
          leases = y.leases;
        })
    elsewhere :
        (y : System) (s : Server)
        → ((u : ℕ) → y.world.server_now ≤ u → get s u key ≡ get y.world.server u key)
        → Step y (record {
          world = record {
            server = s;
            server_now = y.world.server_now;
            loop_now = y.world.loop_now;
          };
          leases = y.leases;
        })

  pub data Reach (y : System) : System → Type 0 where
    here : Reach y y
    next : {u v : System} → Reach y u → Step u v → Reach y v

  -- Up to its end a lease's token is what the key holds.
  abbrev Held : Server → ℕ → Lease → Type 0
  Held s now e = (u : ℕ) → now ≤ u → u < e.1 → get s u key ≡ some e.0

  abbrev IsValid : System → Type 0
  IsValid y = AllLeases (Held y.world.server y.world.server_now) y.leases

  after_attempt-IsValid :
      (y : System) (lock : RedisLock) → lock.key ≡ key → IsValid y → IsValid (after_attempt lock y)
  unfolding after_attempt
  after_attempt-IsValid y lock k v =
      elim (Option-cases (get y.world.server y.world.server_now lock.key)) [
        | inl free ↦
            rw
              (r.set_nx_absent y.world.server y.world.server_now lock.key lock.token lock.ttl_ms
                free)
              (
                (λ u later before.
                    rw
                      (
                        ← k,
                        r.get_set y.world.server y.world.server_now lock.key lock.token lock.ttl_ms
                            u later,
                      )
                      (ground arith)),
                AllLeases-map _ _ y.leases
                    (λ e held u later before.
                      let c = held y.world.server_now (omega arith) (omega arith) in absurd (cc))
                    v,
              )
        | inr (w, taken) ↦
            rw
              (r.set_nx_present y.world.server y.world.server_now lock.key lock.token lock.ttl_ms w
                taken)
              v
      ]

  -- Once the key held the released token, no other token has a lease that goes on.
  not_other :
      (s : Server) (now : ℕ) (lock : RedisLock) (w : Text) (e : Lease) (u : ℕ)
      → get s now key ≡ some w
      → text_eq w lock.token ≡ true
      → not (text_eq e.0 lock.token) ≡ true
      → Held s now e
      → now ≤ u
      → u < e.1
      → ⊥
  not_other s now lock w e u holds own differs held later before =
      let c : some w ≡ some e.0 = sym holds ∙ held now (omega arith) (omega arith) in
      let d : w ≡ e.0 = cc in let f : text_eq e.0 lock.token ≡ true = rw (← d) own in ground arith

  -- A release by a lock that has been acquired ends the leases of its token, and no others.
  release_lua-Held :
      (s : Server) (now : ℕ) (lock : RedisLock) (l : List Lease)
      → AllLeases (Held s now) l
      → AllLeases (Held (release_lua r s now key lock.token).1 now) (others lock.token l)
  unfolding release_lua
  release_lua-Held s now lock l v = elim (Option-cases (get s now key)) [
    | inl free ↦ rw (free, release_lua) (AllLeases-keep _ _ _ l (λ e differs held. held) v)
    | inr (w, holds) ↦ elim (Bool-cases (text_eq w lock.token)) [
      | inl own ↦
          rw (holds, release_lua, own)
            (AllLeases-keep _ _ _ l
              (λ e differs held u later before.
                absurd (not_other s now lock w e u holds own differs held later before))
              v)
      | inr foreign ↦
          rw (holds, release_lua, foreign) (AllLeases-keep _ _ _ l (λ e differs held. held) v)
    ]
  ]

  after_release-IsValid :
      (y : System) (lock : RedisLock) → lock.key ≡ key → IsValid y → IsValid (after_release lock y)
  unfolding after_release
  after_release-IsValid y lock k v = elim (Bool-cases lock.acquired) [
    | inl acquired ↦
        rw (acquired, after_release, k)
          (release_lua-Held y.world.server y.world.server_now lock y.leases v)
    | inr idle ↦ rw (idle, after_release) v
  ]

  Step-IsValid : {y y' : System} → Step y y' → IsValid y → IsValid y'
  Step-IsValid (tries y lock k) v = after_attempt-IsValid y lock k v
  Step-IsValid (releases y lock k) v = after_release-IsValid y lock k v
  Step-IsValid (passes y now loop_now le) v =
      AllLeases-map _ _ y.leases (λ e held u later before. held u (omega arith) before) v
  Step-IsValid (elsewhere y s same) v =
      AllLeases-map _ _ y.leases (λ e held u later before. same u later ∙ held u later before) v

  Reach-IsValid : {y y' : System} → IsValid y → Reach y y' → IsValid y'
  Reach-IsValid v here = v
  Reach-IsValid v (next reach step) = Step-IsValid step (Reach-IsValid v reach)

  -- Mutual exclusion. In every state that lock objects of one key reach from a state without
  -- leases, by calls in any order and whatever time passes, two leases that have not run out are
  -- of the same token, and the key holds it.
  pub exclusive :
      {y y' : System} (a b : Text) (i j : ℕ)
      → y.leases ≡ []
      → Reach y y'
      → Listed (a, i) y'.leases
      → Listed (b, j) y'.leases
      → y'.world.server_now < i
      → y'.world.server_now < j
      → (a ≡ b) × (get y'.world.server y'.world.server_now key ≡ some a)
  exclusive {y} {y'} a b i j none_yet reach la lb ti tj =
      let v =
        Reach-IsValid (subst (AllLeases (Held y.world.server y.world.server_now)) (sym none_yet) tt)
          reach in
      let now = y'.world.server_now in
      let held_a : get y'.world.server now key ≡ some a =
        AllLeases-Listed _ (a, i) y'.leases v la now (omega arith) ti in
      let held_b : get y'.world.server now key ≡ some b =
        AllLeases-Listed _ (b, j) y'.leases v lb now (omega arith) tj in
      (cc, held_a)
