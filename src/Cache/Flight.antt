-- ===== src/Cache/Flight.antt =====
-- Who loads a missing value, and what is cached afterwards.
use redis_project.Base.{
  ℕ, zero, suc, ◌+◌, ◌*◌, ◌≤◌, ◌<◌, ◌≡◌, ◌≢◌, refl, ap, inl, inr, Option, none, some, ◌++◌, Text,
  codes, length, length-append, lt→ltb, Option-cases, arith,
}
use mathlib.Core.Path.{subst}
use redis_project.Cache.{
  Json, World, Loader, lock_key_of, cache_get, cache_set, cache_delete, store_loaded, unlock, poll,
  compute, get_or_set,
}
use redis_project.Redis.Strings.{StringServer}

lock_key_of-ne : (key : Text) → key ≢ lock_key_of key
unfolding lock_key_of
lock_key_of-ne key e =
    let long = length-append key (codes ":lock") in
    let same : length key ≡ length (key ++ codes ":lock") = ap length e in omega arith

module _ {V : Type 0} (j : Json V) (r : StringServer) (key : Text) where
  open r use {get}

  -- The value is cached until its time to live is over.
  abbrev pub Cached : V → ℕ → World j r → Type 0
  Cached value seconds w =
      (u : ℕ)
      → w.now ≤ u
      → u < w.now + 1000 * seconds
      → cache_get j r (record w { now = u }) key ≡ some (some value)

  cache_set-Cached :
      (w : World j r) (value : V) (ttl jitter : ℕ)
      → Cached value (ttl + jitter) (cache_set j r w key value ttl jitter)
  unfolding cache_set cache_get
  cache_set-Cached w value ttl jitter u later soon =
      rw
        (
          r.get_set w.server w.now key (j.dumps value) (1000 * (ttl + jitter)) u later,
          lt→ltb u (w.now + 1000 * (ttl + jitter)) soon,
          cache_get,
        )
        (j.loads_dumps value)

  unlock-Cached :
      (w : World j r) (value : V) (seconds : ℕ) (o : Option (Option V))
      → Cached value seconds w
      → Cached value seconds (unlock j r key (o, w)).1
  unfolding unlock cache_delete cache_get
  unlock-Cached w value seconds o h u later soon =
      rw (r.del_other w.server w.now (lock_key_of key) u key later (lock_key_of-ne key), cache_get)
        (h u later soon)

  -- What a load leaves: the loader's answer and, where that is a value, the value in the cache.
  pub record Loaded (seconds : ℕ) (load out : Option (Option V) × World j r) : Type 0 where
    pub answer : out.0 ≡ load.0
    pub caches : (value : V) → load.0 ≡ some (some value) → Cached value seconds out.1

  store_loaded-Loaded :
      (ttl jitter : ℕ) (load : Option (Option V) × World j r)
      → Loaded (ttl + jitter) load (store_loaded j r key ttl jitter load)
  unfolding store_loaded
  store_loaded-Loaded ttl jitter (some (some v), w) = record {
    answer = refl;
    caches = λ value e.
        let q : v ≡ value = cc in
        subst (λ x. Cached x (ttl + jitter) (cache_set j r w key v ttl jitter)) q
          (cache_set-Cached w v ttl jitter);
  }
  store_loaded-Loaded ttl jitter (some none, w) = record { answer = refl; caches = λ value e. cc }
  store_loaded-Loaded ttl jitter (none, w) = record { answer = refl; caches = λ value e. cc }

  unlock-Loaded :
      (seconds : ℕ) (load out : Option (Option V) × World j r)
      → Loaded seconds load out
      → Loaded seconds load (unlock j r key out)
  unfolding unlock
  unlock-Loaded seconds load (o, w) h = record {
    answer = h.answer;
    caches = λ value e. unlock-Cached w value seconds o (h.caches value e);
  }

  unlock_frees :
      (out : Option (Option V) × World j r)
      → let w = (unlock j r key out).1 in get w.server w.now (lock_key_of key) ≡ none
  unfolding unlock cache_delete
  unlock_frees (o, w) = r.get_del w.server w.now (lock_key_of key) w.now (omega arith)

  module _ (sleep : World j r → World j r) (loader : Loader j r) where
    -- The world after some sleeps.
    abbrev pub slept : ℕ → World j r → World j r
    slept zero w = w
    slept (suc n) w = slept n (sleep w)

    abbrev pub AllMiss : ℕ → World j r → Type 0
    AllMiss n w = (i : ℕ) → i < n → cache_get j r (slept (suc i) w) key ≡ some none

    -- The first poll that does not find the key missing decides: a value is returned, and an
    -- exception is raised. After polls that all miss the value is loaded.
    pub data Polled (retries ttl jitter : ℕ) (w : World j r)
        : Option (Option V) × World j r → Type 0 where
      found :
          (i : ℕ) (value : V)
          → i < retries
          → AllMiss i w
          → cache_get j r (slept (suc i) w) key ≡ some (some value)
          → Polled retries ttl jitter w (some (some value), slept (suc i) w)
      raised :
          (i : ℕ)
          → i < retries
          → AllMiss i w
          → cache_get j r (slept (suc i) w) key ≡ none
          → Polled retries ttl jitter w (none, slept (suc i) w)
      missed :
          {out : Option (Option V) × World j r}
          → AllMiss retries w
          → Loaded (ttl + jitter) (loader (slept retries w)) out
          → Polled retries ttl jitter w out

    missed_later :
        (retries : ℕ) (w : World j r)
        → cache_get j r (sleep w) key ≡ some none
        → AllMiss retries (sleep w)
        → AllMiss (suc retries) w
    missed_later retries w none_yet all zero few = none_yet
    missed_later retries w none_yet all (suc i) few = all i (omega arith)

    Polled_later :
        (retries ttl jitter : ℕ) (w : World j r) (out : Option (Option V) × World j r)
        → cache_get j r (sleep w) key ≡ some none
        → Polled retries ttl jitter (sleep w) out
        → Polled (suc retries) ttl jitter w out
    Polled_later retries ttl jitter w out none_yet (found i value few all e) =
        found (suc i) value (omega arith) (missed_later i w none_yet all) e
    Polled_later retries ttl jitter w out none_yet (raised i few all e) =
        raised (suc i) (omega arith) (missed_later i w none_yet all) e
    Polled_later retries ttl jitter w out none_yet (missed all load) =
        missed (missed_later retries w none_yet all) load

    no_polls : (w : World j r) → AllMiss 0 w
    no_polls w i few = absurd (omega arith)

    poll-Polled :
        (retries ttl jitter : ℕ) (w : World j r)
        → Polled retries ttl jitter w (poll j r sleep loader retries key ttl jitter w)
    unfolding poll
    poll-Polled zero ttl jitter w = missed (no_polls w) (store_loaded-Loaded ttl jitter (loader w))
    poll-Polled (suc retries) ttl jitter w = elim (Option-cases (cache_get j r (sleep w) key)) [
      | inl raises ↦ rw (raises, poll) (raised 0 (omega arith) (no_polls w) raises)
      | inr (none, miss) ↦
          rw (miss, poll)
            (Polled_later retries ttl jitter w _ miss (poll-Polled retries ttl jitter (sleep w)))
      | inr (some value, hit) ↦ rw (hit, poll) (found 0 value (omega arith) (no_polls w) hit)
    ]

    module _ (lock_ttl retries ttl jitter : ℕ) (w : World j r) where
      -- A cached value is returned at once, and a cached text that is no JSON raises at once. On a
      -- miss with the lock free, the caller takes it, what the loader answers under it is returned
      -- and, where it is a value, cached for its time to live, and the lock is free again, also
      -- where the loader raises. On a miss with the lock held, the caller polls, and the first poll
      -- that does not miss decides: the value that it finds is returned, or its exception raised;
      -- only after all polls have missed does the caller load the value itself.
      pub get_or_set_lem :
          let out = get_or_set j r sleep loader lock_ttl retries key ttl jitter w in
          let locked = record w {
            server = (r.set_nx w.server w.now (lock_key_of key) (codes "1") (1000 * lock_ttl)).1;
          } in
          ((value : V) → cache_get j r w key ≡ some (some value) → out ≡ (some (some value), w))
          × (cache_get j r w key ≡ none → out ≡ (none, w))
          × (cache_get j r w key ≡ some none
              → get w.server w.now (lock_key_of key) ≡ none
              → Loaded (ttl + jitter) (loader locked) out
                × (get out.1.server out.1.now (lock_key_of key) ≡ none))
          × ((owner : Text)
              → cache_get j r w key ≡ some none
              → get w.server w.now (lock_key_of key) ≡ some owner
              → Polled retries ttl jitter w out)
      unfolding get_or_set compute
      get_or_set_lem = (
        λ value hit. rw (hit, get_or_set) refl,
        λ raises. rw (raises, get_or_set) refl,
        λ miss free.
            let set_it =
              r.set_nx_absent w.server w.now (lock_key_of key) (codes "1") (1000 * lock_ttl) free in
            rw (miss, get_or_set, set_it, compute)
              (
                unlock-Loaded (ttl + jitter) _ _ (store_loaded-Loaded ttl jitter _),
                unlock_frees (
                    store_loaded j r key ttl jitter (
                      loader (record w {
                        server =
                            r.set w.server w.now (lock_key_of key) (codes "1")
                              (some (1000 * lock_ttl));
                      }))),
              ),
        λ owner miss held.
            let lost =
              r.set_nx_present w.server w.now (lock_key_of key) (codes "1") (1000 * lock_ttl) owner
                held in
            rw (miss, get_or_set, lost, compute) (poll-Polled retries ttl jitter w),
      )
