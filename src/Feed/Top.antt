-- ===== src/Feed/Top.antt =====
-- The top ids of a dict of scores.
use redis_project.Base.{
  ℕ, zero, suc, ◌≤◌, ◌≡◌, refl, sym, ◌∙◌, Option, none, some, [], ◌∷◌, arith, length, take,
  length-take-le,
}
use redis_project.Feed.{Scores, lookup, sort_by_score}
use redis_project.Feed.Merge.{
  AllScores, Descending, IsDict, sort_by_score-Descending, lookup-sort_by_score,
  sort_by_score-IsDict,
}

lookup-take :
    (j n x : ℕ) (d : Scores) → IsDict d → lookup j (take n d) ≡ some x → lookup j d ≡ some x
unfolding lookup
lookup-take j zero x d h e = cc
lookup-take j (suc n) x [] h e = e
lookup-take j (suc n) x (f ∷ d) h e = ground (arith, lookup-take j n x d)

lookup-take-none : (j n : ℕ) (d : Scores) → lookup j d ≡ none → lookup j (take n d) ≡ none
unfolding lookup
lookup-take-none j zero d h = refl
lookup-take-none j (suc n) [] h = refl
lookup-take-none j (suc n) (f ∷ d) h = ground (arith, lookup-take-none j n d)

take-IsDict : (n : ℕ) (d : Scores) → IsDict d → IsDict (take n d)
take-IsDict zero d h = tt
take-IsDict (suc n) [] h = tt
take-IsDict (suc n) (f ∷ d) h = (lookup-take-none f.0 n d h.0, take-IsDict n d h.1)

AllScores-take :
    (b n : ℕ) (d : Scores) → AllScores (λ f. f.1 ≤ b) d → AllScores (λ f. f.1 ≤ b) (take n d)
AllScores-take b zero d h = tt
AllScores-take b (suc n) [] h = tt
AllScores-take b (suc n) (f ∷ d) h = (h.0, AllScores-take b n d h.1)

take-Descending : (n : ℕ) (d : Scores) → Descending d → Descending (take n d)
take-Descending zero d h = tt
take-Descending (suc n) [] h = tt
take-Descending (suc n) (f ∷ d) h = (AllScores-take f.1 n d h.0, take-Descending n d h.1)

lookup-le : (j b x : ℕ) (d : Scores) → AllScores (λ f. f.1 ≤ b) d → lookup j d ≡ some x → x ≤ b
unfolding lookup
lookup-le j b x [] h e = absurd (cc)
lookup-le j b x (f ∷ d) h e = ground (arith, lookup-le j b x d h.1)

take_omits :
    (j n x : ℕ) (d : Scores)
    → Descending d
    → lookup j d ≡ some x
    → lookup j (take n d) ≡ none
    → AllScores (λ f. x ≤ f.1) (take n d) × (length (take n d) ≡ n)
unfolding lookup
take_omits j zero x d h e gone = (tt, refl)
take_omits j (suc n) x [] h e gone = absurd (cc)
take_omits j (suc n) x (f ∷ d) h e gone =
    ground (arith, take_omits j n x d h.1, lookup-le j f.1 x d h.0)

-- What the top ids of a dict are: `limit` of them at most, no id twice, with the scores of the
-- dict, by falling score; and an id of the dict is left out only if `limit` ids with scores as high
-- or higher are in.
pub record IsTop (limit : ℕ) (score : ℕ → Option ℕ) (top : Scores) : Type 0 where
  pub bounded : length top ≤ limit
  pub distinct : IsDict top
  pub falling : Descending top
  pub sound : (j x : ℕ) → lookup j top ≡ some x → score j ≡ some x
  pub complete :
      (j x : ℕ)
      → score j ≡ some x
      → lookup j top ≡ none
      → AllScores (λ f. x ≤ f.1) top × (length top ≡ limit)

pub top_ids_lem :
    (limit : ℕ) (score : ℕ → Option ℕ) (d : Scores)
    → IsDict d
    → ((j : ℕ) → lookup j d ≡ score j)
    → IsTop limit score (take limit (sort_by_score d))
top_ids_lem limit score d h e = record {
  bounded = length-take-le limit (sort_by_score d);
  distinct = take-IsDict limit (sort_by_score d) (sort_by_score-IsDict d h);
  falling = take-Descending limit (sort_by_score d) (sort_by_score-Descending d);
  sound = λ j x f.
      sym (e j)
      ∙ sym (lookup-sort_by_score j d h)
      ∙ lookup-take j limit x (sort_by_score d) (sort_by_score-IsDict d h) f;
  complete = λ j x f gone.
      take_omits j limit x (sort_by_score d) (sort_by_score-Descending d)
        (lookup-sort_by_score j d h ∙ e j ∙ f) gone;
}
