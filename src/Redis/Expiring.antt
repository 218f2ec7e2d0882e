-- ===== src/Redis/Expiring.antt =====
-- Hashes and sets with a time to live. Each command is given the time at which the server runs it,
-- in seconds.
use redis_project.Base.{
  ℕ, ◌+◌, ◌≤◌, ◌≡◌, ◌≢◌, Bool, false, not, ◌&&◌, ◌||◌, Option, none, some, List, [], ◌∷◌, Text,
  text_eq, ltb, if◌then◌else◌,
}

abbrev pub Fields : Type 0
Fields = List (Text × Text)

-- `fields.get(name)`
unfoldable pub field : Text → Fields → Option Text
field name [] = none
field name ((n, v) ∷ fields) = if text_eq name n then some v else field name fields

unfoldable pub contains : Text → List Text → Bool
contains x [] = false
contains x (y ∷ ys) = text_eq x y || contains x ys

pub record HashServer : Type 1 where
  pub Server : Type 0
  -- HGETALL key; `none` is the empty reply for a key that does not exist
  pub hgetall : Server → ℕ → Text → Option Fields
  pub hset : Server → ℕ → Text → Fields → Server
  pub expire : Server → ℕ → Text → ℕ → Server
  pub del : Server → ℕ → Text → Server
  pub hgetall_hset :
      (s : Server) (t : ℕ) (k : Text) (fields : Fields)
      → hgetall s t k ≡ none
      → hgetall (hset s t k fields) t k ≡ some fields
  pub hset_other :
      (s : Server) (t : ℕ) (k : Text) (fields : Fields) (u : ℕ) (j : Text)
      → t ≤ u
      → j ≢ k
      → hgetall (hset s t k fields) u j ≡ hgetall s u j
  pub hgetall_expire :
      (s : Server) (t : ℕ) (k : Text) (ttl u : ℕ)
      → t ≤ u
      → hgetall (expire s t k ttl) u k ≡ (if ltb u (t + ttl) then hgetall s t k else none)
  pub expire_other :
      (s : Server) (t : ℕ) (k : Text) (ttl u : ℕ) (j : Text)
      → t ≤ u
      → j ≢ k
      → hgetall (expire s t k ttl) u j ≡ hgetall s u j
  pub hgetall_del : (s : Server) (t : ℕ) (k : Text) (u : ℕ) → t ≤ u → hgetall (del s t k) u k ≡ none
  pub del_other :
      (s : Server) (t : ℕ) (k : Text) (u : ℕ) (j : Text)
      → t ≤ u
      → j ≢ k
      → hgetall (del s t k) u j ≡ hgetall s u j
  -- With no command in between, a hash that is there was there before.
  pub present_before :
      (s : Server) (t u : ℕ) (k : Text) (fields : Fields)
      → t ≤ u
      → hgetall s u k ≡ some fields
      → hgetall s t k ≡ some fields

pub record ExpiringSetServer : Type 1 where
  pub Server : Type 0
  -- SMEMBERS key
  pub smembers : Server → ℕ → Text → List Text
  pub sadd : Server → ℕ → Text → Text → Server
  pub srem : Server → ℕ → Text → Text → Server
  pub expire : Server → ℕ → Text → ℕ → Server
  pub del : Server → ℕ → Text → Server
  pub contains_sadd :
      (s : Server) (t : ℕ) (k m x : Text)
      → contains x (smembers (sadd s t k m) t k) ≡ (text_eq x m || contains x (smembers s t k))
  pub sadd_other :
      (s : Server) (t : ℕ) (k m : Text) (u : ℕ) (j : Text)
      → t ≤ u
      → j ≢ k
      → smembers (sadd s t k m) u j ≡ smembers s u j
  pub contains_srem :
      (s : Server) (t : ℕ) (k m x : Text) (u : ℕ)
      → t ≤ u
      → contains x (smembers (srem s t k m) u k)
        ≡ (not (text_eq x m) && contains x (smembers s u k))
  pub srem_other :
      (s : Server) (t : ℕ) (k m : Text) (u : ℕ) (j : Text)
      → t ≤ u
      → j ≢ k
      → smembers (srem s t k m) u j ≡ smembers s u j
  pub smembers_expire :
      (s : Server) (t : ℕ) (k : Text) (ttl u : ℕ)
      → t ≤ u
      → smembers (expire s t k ttl) u k ≡ (if ltb u (t + ttl) then smembers s t k else [])
  pub expire_other :
      (s : Server) (t : ℕ) (k : Text) (ttl u : ℕ) (j : Text)
      → t ≤ u
      → j ≢ k
      → smembers (expire s t k ttl) u j ≡ smembers s u j
  pub smembers_del : (s : Server) (t : ℕ) (k : Text) (u : ℕ) → t ≤ u → smembers (del s t k) u k ≡ []
  pub del_other :
      (s : Server) (t : ℕ) (k : Text) (u : ℕ) (j : Text)
      → t ≤ u
      → j ≢ k
      → smembers (del s t k) u j ≡ smembers s u j
