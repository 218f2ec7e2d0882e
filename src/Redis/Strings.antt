-- ===== src/Redis/Strings.antt =====
-- Strings with a time to live. Each command is given the time at which the server runs it, in
-- milliseconds.
use redis_project.Base.{
  ℕ, ◌+◌, ◌≤◌, ◌≡◌, ◌≢◌, Bool, true, false, Option, none, some, Text, ltb, if◌then◌else◌,
}

pub record StringServer : Type 1 where
  pub Server : Type 0
  pub get : Server → ℕ → Text → Option Text
  -- SET key value PX ttl; without a time to live where that is `none`
  pub set : Server → ℕ → Text → Text → Option ℕ → Server
  -- SET key value NX PX ttl: whether the value was set
  pub set_nx : Server → ℕ → Text → Text → ℕ → Bool × Server
  -- DEL key: the number of keys removed
  pub del : Server → ℕ → Text → ℕ × Server
  pub get_set :
      (s : Server) (t : ℕ) (k v : Text) (ttl u : ℕ)
      → t ≤ u
      → get (set s t k v (some ttl)) u k ≡ (if ltb u (t + ttl) then some v else none)
  pub get_set_forever :
      (s : Server) (t : ℕ) (k v : Text) (u : ℕ) → t ≤ u → get (set s t k v none) u k ≡ some v
  pub set_other :
      (s : Server) (t : ℕ) (k v : Text) (ttl : Option ℕ) (u : ℕ) (j : Text)
      → t ≤ u
      → j ≢ k
      → get (set s t k v ttl) u j ≡ get s u j
  pub set_nx_absent :
      (s : Server) (t : ℕ) (k v : Text) (ttl : ℕ)
      → get s t k ≡ none
      → set_nx s t k v ttl ≡ (true, set s t k v (some ttl))
  pub set_nx_present :
      (s : Server) (t : ℕ) (k v : Text) (ttl : ℕ) (w : Text)
      → get s t k ≡ some w
      → set_nx s t k v ttl ≡ (false, s)
  pub del_present : (s : Server) (t : ℕ) (k v : Text) → get s t k ≡ some v → (del s t k).0 ≡ 1
  pub del_absent : (s : Server) (t : ℕ) (k : Text) → get s t k ≡ none → (del s t k).0 ≡ 0
  pub get_del : (s : Server) (t : ℕ) (k : Text) (u : ℕ) → t ≤ u → get (del s t k).1 u k ≡ none
  pub del_other :
      (s : Server) (t : ℕ) (k : Text) (u : ℕ) (j : Text)
      → t ≤ u
      → j ≢ k
      → get (del s t k).1 u j ≡ get s u j
  -- With no command in between, a value does not come back, and was there before.
  pub absent_later : (s : Server) (t u : ℕ) (k : Text) → t ≤ u → get s t k ≡ none → get s u k ≡ none
  pub present_before :
      (s : Server) (t u : ℕ) (k v : Text) → t ≤ u → get s u k ≡ some v → get s t k ≡ some v
