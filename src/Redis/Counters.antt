-- ===== src/Redis/Counters.antt =====
-- Counters: string keys that hold a number, as INCR, DECR and SET leave them. The conversions of
-- the replies, `int(value)`, are part of `value`.
use redis_project.Base.{ℕ, suc, ◌≡◌, ◌≢◌, ◌<◌, Option, none, some, Text}
use redis_project.Base.Int.{ℤ, pos, negsuc}

-- `int(value or 0)`
abbrev pub or_zero : Option ℤ → ℤ
or_zero none = pos 0
or_zero (some n) = n

abbrev pub plus_one : ℤ → ℤ
plus_one (pos n) = pos (suc n)
plus_one (negsuc ℕ.zero) = pos 0
plus_one (negsuc (suc n)) = negsuc n

abbrev pub minus_one : ℤ → ℤ
minus_one (pos ℕ.zero) = negsuc 0
minus_one (pos (suc n)) = pos n
minus_one (negsuc n) = negsuc (suc n)

pub record CounterServer : Type 1 where
  pub Server : Type 0
  -- GET key
  pub value : Server → Text → Option ℤ
  pub incr : Server → Text → Server
  pub decr : Server → Text → Server
  pub set : Server → Text → ℤ → Server
  pub del : Server → Text → Server
  -- EXPIRE key
  pub expire : Server → Text → ℕ → Server
  pub value_incr :
      (s : Server) (k : Text) → value (incr s k) k ≡ some (plus_one (or_zero (value s k)))
  pub incr_other : (s : Server) (k j : Text) → j ≢ k → value (incr s k) j ≡ value s j
  pub value_decr :
      (s : Server) (k : Text) → value (decr s k) k ≡ some (minus_one (or_zero (value s k)))
  pub decr_other : (s : Server) (k j : Text) → j ≢ k → value (decr s k) j ≡ value s j
  pub value_set : (s : Server) (k : Text) (n : ℤ) → value (set s k n) k ≡ some n
  pub set_other :
      (s : Server) (k : Text) (n : ℤ) (j : Text) → j ≢ k → value (set s k n) j ≡ value s j
  pub value_del : (s : Server) (k : Text) → value (del s k) k ≡ none
  pub del_other : (s : Server) (k j : Text) → j ≢ k → value (del s k) j ≡ value s j
  -- A positive time to live takes nothing away at once.
  pub value_expire :
      (s : Server) (k : Text) (ttl : ℕ) (j : Text) → 0 < ttl → value (expire s k ttl) j ≡ value s j
