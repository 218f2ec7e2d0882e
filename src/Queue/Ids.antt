-- ===== src/Queue/Ids.antt =====
-- Membership in lists of message ids.
use redis_project.Base.{
  ℕ, zero, suc, ◌≡◌, refl, ap, ◌∙◌, sym, ◌||◌, List, [], ◌∷◌, ◌++◌, Text, take, drop, arith,
}
use mathlib.Core.List.{map-append}
use redis_project.Redis.Expiring.{contains}
use redis_project.Redis.Groups.{Entry, ids}

pub contains-append :
    (x : Text) (l r : List Text) → contains x (l ++ r) ≡ (contains x l || contains x r)
unfolding contains
contains-append x [] r = refl
contains-append x (y ∷ l) r = ground (arith, contains-append x l r)

pub contains-ids-append :
    (x : Text) (l r : List Entry)
    → contains x (ids (l ++ r)) ≡ (contains x (ids l) || contains x (ids r))
contains-ids-append x l r = ap (contains x) (map-append _ l r) ∙ contains-append x (ids l) (ids r)

pub take-drop {ℓ} : {A : Type ℓ} (n : ℕ) (l : List A) → take n l ++ drop n l ≡ l
take-drop zero l = refl
take-drop (suc n) [] = refl
take-drop (suc n) (x ∷ l) = ap (λ r. x ∷ r) (take-drop n l)

-- A read splits the ids into those that it takes and the others.
pub contains-ids-split :
    (x : Text) (n : ℕ) (l : List Entry)
    → contains x (ids l) ≡ (contains x (ids (take n l)) || contains x (ids (drop n l)))
contains-ids-split x n l =
    ap (λ k. contains x (ids k)) (sym (take-drop n l)) ∙ contains-ids-append x (take n l) (drop n l)
