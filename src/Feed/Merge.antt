-- ===== src/Feed/Merge.antt =====
-- The dict of merged scores, and the choice of the top ids by a stable sort.
use redis_project.Base.{
  ℕ, ◌≤◌, ◌≡◌, refl, ap, ◌∙◌, none, some, List, [], ◌∷◌, arith, ◌==◌, if◌then◌else◌,
}
use redis_project.Redis.Zsets.{Row}
use redis_project.Feed.{
  Scores, lookup, store, from_home, merge_rows, insert_by_score, sort_by_score, int_of,
}

abbrev pub AllScores : (ℕ × ℕ → Type 0) → Scores → Type 0
AllScores P [] = Unit
AllScores P (e ∷ d) = P e × AllScores P d

-- Scores fall, or stay the same, from left to right.
abbrev pub Descending : Scores → Type 0
Descending [] = Unit
Descending (e ∷ d) = AllScores (λ f. f.1 ≤ e.1) d × Descending d

-- No id stands twice.
abbrev pub IsDict : Scores → Type 0
IsDict [] = Unit
IsDict (e ∷ d) = (lookup e.0 d ≡ none) × IsDict d

pub lookup-store :
    (j pid score : ℕ) (d : Scores)
    → lookup j (store pid score d) ≡ (if pid == j then some score else lookup j d)
unfolding lookup store
lookup-store j pid score [] = refl
lookup-store j pid score (e ∷ d) = ground (arith, lookup-store j pid score d)

store-IsDict : (pid score : ℕ) (d : Scores) → IsDict d → IsDict (store pid score d)
unfolding lookup store
store-IsDict pid score [] h = (refl, tt)
store-IsDict pid score (e ∷ d) h =
    ground (arith, store-IsDict pid score d h.1, lookup-store e.0 pid score d)

pub from_home-IsDict : (rows : List Row) (d : Scores) → IsDict d → IsDict (from_home rows d)
unfolding from_home
from_home-IsDict [] d h = h
from_home-IsDict ((m, x) ∷ rows) d h =
    from_home-IsDict rows (store (int_of m) x d) (store-IsDict (int_of m) x d h)

pub merge_rows-IsDict : (rows : List Row) (d : Scores) → IsDict d → IsDict (merge_rows rows d)
unfolding merge_rows
merge_rows-IsDict [] d h = h
merge_rows-IsDict ((m, x) ∷ rows) d h = merge_rows-IsDict rows _ (store-IsDict (int_of m) _ d h)

AllScores-lower :
    (a b : ℕ) (d : Scores) → b ≤ a → AllScores (λ f. f.1 ≤ b) d → AllScores (λ f. f.1 ≤ a) d
AllScores-lower a b [] h k = tt
AllScores-lower a b (e ∷ d) h k = (omega arith, AllScores-lower a b d h k.1)

AllScores-insert :
    (b : ℕ) (e : ℕ × ℕ) (d : Scores)
    → e.1 ≤ b
    → AllScores (λ f. f.1 ≤ b) d
    → AllScores (λ f. f.1 ≤ b) (insert_by_score e d)
unfolding insert_by_score
AllScores-insert b e [] h k = (h, tt)
AllScores-insert b e (f ∷ d) h k = ground (arith, AllScores-insert b e d h k.1)

insert_by_score-Descending :
    (e : ℕ × ℕ) (d : Scores) → Descending d → Descending (insert_by_score e d)
unfolding insert_by_score
insert_by_score-Descending e [] h = (tt, tt)
insert_by_score-Descending e (f ∷ d) h =
    ground (
      arith,
      insert_by_score-Descending e d h.1,
      AllScores-lower e.1 f.1 d,
      AllScores-insert f.1 e d,
    )

pub sort_by_score-Descending : (d : Scores) → Descending (sort_by_score d)
unfolding sort_by_score
sort_by_score-Descending [] = tt
sort_by_score-Descending (e ∷ d) =
    insert_by_score-Descending e (sort_by_score d) (sort_by_score-Descending d)

lookup-insert_by_score :
    (j : ℕ) (e : ℕ × ℕ) (d : Scores)
    → lookup e.0 d ≡ none
    → lookup j (insert_by_score e d) ≡ (if e.0 == j then some e.1 else lookup j d)
unfolding lookup insert_by_score
lookup-insert_by_score j e [] h = refl
lookup-insert_by_score j e (f ∷ d) h = ground (arith, lookup-insert_by_score j e d)

-- Sorting changes no entry.
pub lookup-sort_by_score : (j : ℕ) (d : Scores) → IsDict d → lookup j (sort_by_score d) ≡ lookup j d
unfolding sort_by_score lookup
lookup-sort_by_score j [] h = refl
lookup-sort_by_score j (e ∷ d) h =
    lookup-insert_by_score j e (sort_by_score d) (lookup-sort_by_score e.0 d h.1 ∙ h.0)
    ∙ ap (λ o. if e.0 == j then some e.1 else o) (lookup-sort_by_score j d h.1)

insert_by_score-IsDict :
    (e : ℕ × ℕ) (d : Scores) → lookup e.0 d ≡ none → IsDict d → IsDict (insert_by_score e d)
unfolding lookup insert_by_score
insert_by_score-IsDict e [] h k = (refl, tt)
insert_by_score-IsDict e (f ∷ d) h k =
    ground (arith, insert_by_score-IsDict e d, lookup-insert_by_score f.0 e d)

pub sort_by_score-IsDict : (d : Scores) → IsDict d → IsDict (sort_by_score d)
unfolding sort_by_score
sort_by_score-IsDict [] h = tt
sort_by_score-IsDict (e ∷ d) h =
    insert_by_score-IsDict e (sort_by_score d) (lookup-sort_by_score e.0 d h.1 ∙ h.0)
      (sort_by_score-IsDict d h.1)
