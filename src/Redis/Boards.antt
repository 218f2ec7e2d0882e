-- ===== src/Redis/Boards.antt =====
-- Leaderboards: sorted sets whose scores are whole numbers, which only ZINCRBY writes.
use redis_project.Base.{
  ℕ, suc, ◌+◌, ◌≡◌, ◌≢◌, Option, none, some, List, [], ◌∷◌, Text, text_eq, take, if◌then◌else◌,
}
use mathlib.Core.Option

-- How many rows stand before the member's.
abbrev pub rank_in : Text → List (Text × ℕ) → Option ℕ
rank_in m [] = none
rank_in m ((x, score) ∷ rows) =
    let rest = rank_in m rows in if text_eq x m then some 0 else Option.map suc rest

abbrev pub score_in : Text → List (Text × ℕ) → ℕ
score_in m [] = 0
score_in m ((x, score) ∷ rows) = let rest = score_in m rows in if text_eq x m then score else rest

pub record BoardServer : Type 1 where
  pub Server : Type 0
  -- ZREVRANGE key 0 -1 WITHSCORES
  pub board : Server → Text → List (Text × ℕ)
  -- ZREVRANGE key 0 stop WITHSCORES
  pub zrevrange : Server → Text → ℕ → List (Text × ℕ)
  pub zrevrank : Server → Text → Text → Option ℕ
  pub zincrby : Server → Text → ℕ → Text → ℕ × Server
  pub zrevrange_lem :
      (s : Server) (k : Text) (stop : ℕ) → zrevrange s k stop ≡ take (suc stop) (board s k)
  pub zrevrank_lem : (s : Server) (k m : Text) → zrevrank s k m ≡ rank_in m (board s k)
  pub zincrby_reply :
      (s : Server) (k : Text) (delta : ℕ) (m : Text)
      → (zincrby s k delta m).0 ≡ score_in m (board s k) + delta
  pub score_zincrby :
      (s : Server) (k : Text) (delta : ℕ) (m : Text)
      → score_in m (board (zincrby s k delta m).1 k) ≡ score_in m (board s k) + delta
  pub score_zincrby_other :
      (s : Server) (k : Text) (delta : ℕ) (m x : Text)
      → x ≢ m
      → score_in x (board (zincrby s k delta m).1 k) ≡ score_in x (board s k)
