-- ===== src/Redis/Groups.antt =====
-- A stream with its one consumer group, as a `StreamQueue` uses it. Entries have one field, `data`.
use redis_project.Base.{
  ℕ, ◌≤◌, ◌<◌, ◌≡◌, Bool, true, false, not, ◌&&◌, ◌||◌, Option, none, some, List, [], ◌∷◌, ◌++◌,
  map, Text, text_eq, length, take, drop,
}
use redis_project.Redis.Expiring.{contains}

-- An entry's id and its data.
abbrev pub Entry : Type 0
Entry = Text × Text

abbrev pub ids : List Entry → List Text
ids = map (λ (e : Entry). e.0)

pub record GroupServer : Type 1 where
  pub Server : Type 0
  pub has_group : Server → Bool
  -- XRANGE - +: all entries, oldest first
  pub entries : Server → List Entry
  -- the entries after the group's last delivered id
  pub undelivered : Server → List Entry
  -- the ids of the group's pending entries list
  pub pending : Server → List Text
  -- how long ago, in milliseconds, a pending entry was delivered last
  pub idle : Server → ℕ → Text → ℕ
  -- XGROUP CREATE … $ MKSTREAM: false is the error BUSYGROUP
  pub xgroup_create : Server → Bool × Server
  -- XADD MAXLEN ~ maxlen: the new id
  pub xadd : Server → Text → ℕ → Text × Server
  -- XREADGROUP GROUP … consumer COUNT count STREAMS … >, at a time; `none` is the error NOGROUP
  pub xreadgroup : Server → ℕ → Text → ℕ → Option (List Entry × Server)
  pub xack : Server → Text → Server
  -- XAUTOCLAIM … consumer min-idle-time 0-0 COUNT count, at a time
  pub xautoclaim : Server → ℕ → Text → ℕ → ℕ → List Entry × Server
  -- Creation. The group of a stream begins after the stream's last entry.
  pub create_new :
      (s : Server)
      → has_group s ≡ false
      → let (ok, s') = xgroup_create s in
        (ok ≡ true)
        × (has_group s' ≡ true)
        × (undelivered s' ≡ [])
        × (pending s' ≡ [])
        × (entries s' ≡ entries s)
  pub create_busy : (s : Server) → has_group s ≡ true → xgroup_create s ≡ (false, s)
  -- Up to the trim, a new entry stands last, under a fresh id. The approximate trim only takes
  -- entries of a stream that is longer than `maxlen`.
  pub xadd_lem :
      (s : Server) (v : Text) (maxlen : ℕ)
      → length (entries s) < maxlen
      → let (id, s') = xadd s v maxlen in
        (entries s' ≡ entries s ++ (id, v) ∷ [])
        × (contains id (ids (entries s)) ≡ false)
        × (has_group s' ≡ has_group s)
        × (has_group s ≡ true → undelivered s' ≡ undelivered s ++ (id, v) ∷ [])
        × (pending s' ≡ pending s)
  -- The trim leaves the group and its pending list. An entry that it leaves is still to be delivered
  -- just if it was before, or is the new one.
  pub xadd_trim :
      (s : Server) (v : Text) (maxlen : ℕ)
      → let (id, s') = xadd s v maxlen in
        (has_group s' ≡ has_group s)
        × (pending s' ≡ pending s)
        × ((x : Text)
            → has_group s ≡ true
            → contains x (ids (entries s')) ≡ true
            → ((contains x (ids (entries s)) || text_eq x id) ≡ true)
              × (contains x (ids (undelivered s'))
                  ≡ (contains x (ids (undelivered s)) || text_eq x id)))
  -- Reading delivers the oldest entries that have not been delivered.
  pub read_no_group :
      (s : Server) (now : ℕ) (consumer : Text) (count : ℕ)
      → has_group s ≡ false
      → xreadgroup s now consumer count ≡ none
  pub read_lem :
      (s : Server) (now : ℕ) (consumer : Text) (count : ℕ)
      → has_group s ≡ true
      → (s' : Server) × (xreadgroup s now consumer count ≡ some (take count (undelivered s), s'))
        × (has_group s' ≡ true)
        × (entries s' ≡ entries s)
        × (undelivered s' ≡ drop count (undelivered s))
        × (pending s' ≡ pending s ++ ids (take count (undelivered s)))
  pub xack_lem :
      (s : Server) (id : Text)
      → (has_group (xack s id) ≡ has_group s)
        × (entries (xack s id) ≡ entries s)
        × (undelivered (xack s id) ≡ undelivered s)
        × ((x : Text)
            → contains x (pending (xack s id)) ≡ (not (text_eq x id) && contains x (pending s)))
  -- Claiming hands over pending entries that have been idle for long enough. It drops an entry from
  -- the list only where the stream has lost it.
  pub claim_lem :
      (s : Server) (now : ℕ) (consumer : Text) (min_idle count : ℕ)
      → let (claimed, s') = xautoclaim s now consumer min_idle count in
        (has_group s' ≡ has_group s)
        × (entries s' ≡ entries s)
        × (undelivered s' ≡ undelivered s)
        × ((x : Text)
            → contains x (ids (entries s)) ≡ true
            → contains x (pending s') ≡ contains x (pending s))
        × ((x : Text) → contains x (pending s') ≡ true → contains x (pending s) ≡ true)
        × ((x : Text)
            → contains x (ids claimed) ≡ true
            → (contains x (pending s) ≡ true) × (min_idle ≤ idle s now x))
