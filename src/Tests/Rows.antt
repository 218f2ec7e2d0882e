-- ===== src/Tests/Rows.antt =====
-- A table of pairs of ids, in which a row may stand twice and counts once.
use redis_project.Base.{
  ℕ, suc, ◌≡◌, refl, Bool, false, not, List, [], ◌∷◌, ◌==◌, if◌then◌else◌, ◌&&◌, ◌||◌, inl, inr,
  Bool-cases, arith,
}

abbrev pub Rows : Type 0
Rows = List (ℕ × ℕ)

unfoldable pub has : Rows → ℕ → ℕ → Bool
has [] u v = false
has ((x, y) ∷ rows) u v = (u == x && v == y) || has rows u v

-- A row is counted where it stands last.
unfoldable pub to : Rows → ℕ → ℕ
unfolding has
to [] v = 0
to ((x, y) ∷ rows) v = let n = to rows v in if v == y && not (has rows x y) then suc n else n

unfoldable pub from : Rows → ℕ → ℕ
unfolding has
from [] u = 0
from ((x, y) ∷ rows) u = let n = from rows u in if u == x && not (has rows x y) then suc n else n

unfoldable pub removed : Rows → ℕ → ℕ → Rows
removed [] u v = []
removed ((x, y) ∷ rows) u v =
    let rest = removed rows u v in if x == u && y == v then rest else (x, y) ∷ rest

pub has-removed :
    (rows : Rows) (u v x y : ℕ)
    → has (removed rows u v) x y ≡ (if x == u && y == v then false else has rows x y)
unfolding has removed
has-removed [] u v x y = ground arith
has-removed ((p, q) ∷ rows) u v x y = let ih = has-removed rows u v x y in ground arith

pub to-removed :
    (rows : Rows) (u v x : ℕ)
    → to rows x
      ≡ (if x == v && has rows u v then suc (to (removed rows u v) x) else to (removed rows u v) x)
unfolding has to removed
to-removed [] u v x = ground arith
to-removed ((p, q) ∷ rows) u v x =
    let ih = to-removed rows u v x in let other = has-removed rows u v p q in ground arith

pub from-removed :
    (rows : Rows) (u v x : ℕ)
    → from rows x ≡ (
        if x == u && has rows u v
        then suc (from (removed rows u v) x)
        else from (removed rows u v) x)
unfolding has from removed
from-removed [] u v x = ground arith
from-removed ((p, q) ∷ rows) u v x =
    let ih = from-removed rows u v x in let other = has-removed rows u v p q in ground arith

abbrev pub followers : Rows → ℕ → List ℕ
followers [] v = []
followers ((x, y) ∷ rows) v =
    let rest = followers rows v in if v == y && not (has rows x y) then x ∷ rest else rest

pub followers-none :
    (rows : Rows) (v : ℕ) → ((x : ℕ) → has rows x v ≡ false) → followers rows v ≡ []
unfolding has
followers-none [] v h = refl
followers-none ((x, y) ∷ rows) v h = elim (Bool-cases (v == y)) [
  | inl same ↦ let e = h x in absurd (ground arith)
  | inr other ↦ rw other (followers-none rows v (λ x'. let e = h x' in ground arith))
]
