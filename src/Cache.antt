-- ===== src/Cache.antt =====
-- The read-through cache of app/redis_layer/cache.py. The server counts milliseconds.
use redis_project.Base.{
  ℕ, zero, suc, ◌+◌, ◌*◌, ◌≡◌, Bool, true, false, Option, none, some, List, [], ◌∷◌, ◌++◌, Text,
  codes, if◌then◌else◌,
}
use mathlib.Core.Option
use redis_project.Redis.Strings.{StringServer}
pub mod Flight

unfoldable pub lock_key_of : Text → Text
lock_key_of key = key ++ codes ":lock"

-- Values as JSON by orjson. `loads` is `none` where the text is no JSON and orjson raises, and
-- `some none` is the JSON null.
pub record Json (V : Type 0) : Type 0 where
  pub dumps : V → Text
  pub loads : Text → Option (Option V)
  pub loads_dumps : (v : V) → loads (dumps v) ≡ some (some v)

module _ {V : Type 0} (j : Json V) (r : StringServer) where
  open r use {Server, get, set, set_nx, del}

  pub record World : Type 0 where
    pub server : Server
    pub now : ℕ

  -- The outer `none` is an exception of orjson, and `some none` is None.
  unfoldable pub cache_get : World → Text → Option (Option V)
  cache_get w key = elim (get w.server w.now key) [ none ↦ some none | some raw ↦ j.loads raw ]

  -- The jitter is a whole number of seconds that the caller has drawn.
  unfoldable pub cache_set : World → Text → V → ℕ → ℕ → World
  cache_set w key value ttl_seconds jitter = record w {
    server = set w.server w.now key (j.dumps value) (some (1000 * (ttl_seconds + jitter)));
  }

  unfoldable pub cache_delete : World → Text → World
  cache_delete w key = record w { server = (del w.server w.now key).1 }

  -- All keys of a call; without any, nothing is sent.
  unfoldable pub cache_delete_all : World → List Text → World
  unfolding cache_delete
  cache_delete_all w [] = w
  cache_delete_all w (key ∷ keys) = cache_delete_all (cache_delete w key) keys

  -- A loader returns a value or None, or raises, which is `none`. It takes time, in which others
  -- use the server.
  abbrev pub Loader : Type 0
  Loader = World → Option (Option V) × World

  unfoldable pub store_loaded : Text → ℕ → ℕ → Option (Option V) × World → Option (Option V) × World
  unfolding cache_set
  store_loaded key ttl_seconds jitter (some (some value), w) =
      (some (some value), cache_set w key value ttl_seconds jitter)
  store_loaded key ttl_seconds jitter (some none, w) = (some none, w)
  store_loaded key ttl_seconds jitter (none, w) = (none, w)

  -- The `finally` clause of the winner.
  unfoldable pub unlock : Text → Option (Option V) × World → Option (Option V) × World
  unfolding cache_delete lock_key_of
  unlock key (result, w) = (result, cache_delete w (lock_key_of key))

  module _ (sleep : World → World) (loader : Loader) where
    -- The loser's loop, and the fallback after it.
    unfoldable pub poll : ℕ → Text → ℕ → ℕ → World → Option (Option V) × World
    unfolding cache_get store_loaded
    poll zero key ttl_seconds jitter w = store_loaded key ttl_seconds jitter (loader w)
    poll (suc retries) key ttl_seconds jitter w =
        let w' = sleep w in
        let rest = poll retries key ttl_seconds jitter w' in
        elim (cache_get w' key) [
          | none ↦ (none, w')
          | some none ↦ rest
          | some (some value) ↦ (some (some value), w')
        ]

    -- After a miss.
    unfoldable pub compute : ℕ → ℕ → Text → ℕ → ℕ → World → Option (Option V) × World
    unfolding poll store_loaded unlock lock_key_of
    compute lock_ttl_seconds max_retries key ttl_seconds jitter w =
        let (got_lock, server) =
          set_nx w.server w.now (lock_key_of key) (codes "1") (1000 * lock_ttl_seconds) in
        let w' = record w { server = server } in
        if got_lock
        then unlock key (store_loaded key ttl_seconds jitter (loader w'))
        else poll max_retries key ttl_seconds jitter w'

    unfoldable pub get_or_set : ℕ → ℕ → Text → ℕ → ℕ → World → Option (Option V) × World
    unfolding compute cache_get
    get_or_set lock_ttl_seconds max_retries key ttl_seconds jitter w = elim (cache_get w key) [
      | none ↦ (none, w)
      | some none ↦ compute lock_ttl_seconds max_retries key ttl_seconds jitter w
      | some (some cached) ↦ (some (some cached), w)
    ]
