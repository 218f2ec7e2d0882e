-- ===== src/Keys/Decimal.antt =====
-- The decimal digits that an f-string prints for a number that is zero or more.
use redis_project.Base.{
  ℕ, zero, suc, ◌+◌, ◌-◌, ◌*◌, ◌/◌, ◌%◌, ◌≤◌, ◌<◌, ◌≡◌, refl, ap, ◌∙◌, Bool, ◌&&◌, [], ◌∷◌, ◌++◌,
  reverse, Text, ltb, leb, if◌then◌else◌, arith,
}
use mathlib.Core.List.{reverse-append, append_assoc}
use mathlib.Core.Path.{subst}

-- The digits from the lowest on; `fuel` bounds their number.
unfoldable pub digits_up : ℕ → ℕ → Text
digits_up zero n = []
digits_up (suc fuel) n = (48 + n % 10) ∷ (if ltb n 10 then [] else digits_up fuel (n / 10))

-- A number has at most as many digits as its value, or one.
unfoldable pub decimal : ℕ → Text
unfolding digits_up
decimal n = reverse (digits_up (suc n) n)

abbrev pub is_digit : ℕ → Bool
is_digit c = leb 48 c && leb c 57

-- Reads the digits that a text begins with: the number and what follows.
unfoldable pub number_from : ℕ → Text → ℕ × Text
number_from acc [] = (acc, [])
number_from acc (c ∷ s) =
    let more = number_from (acc * 10 + (c - 48)) s in if is_digit c then more else (acc, c ∷ s)

-- The number that digits from the lowest on stand for.
value_up : Text → ℕ
value_up [] = 0
value_up (d ∷ ds) = (d - 48) + 10 * value_up ds

abbrev AllDigits : Text → Type 0
AllDigits [] = Unit
AllDigits (d ∷ ds) = (48 ≤ d) × (d ≤ 57) × AllDigits ds

digits_up-AllDigits : (fuel n : ℕ) → AllDigits (digits_up fuel n)
unfolding digits_up
digits_up-AllDigits zero n = tt
digits_up-AllDigits (suc fuel) n = ground (arith, digits_up-AllDigits fuel (n / 10))

value_up-digits_up : (fuel n : ℕ) → n < fuel → value_up (digits_up fuel n) ≡ n
unfolding value_up digits_up
value_up-digits_up zero n h = elim h [ ]
value_up-digits_up (suc fuel) n h = ground (arith, value_up-digits_up fuel (n / 10))

number_from-digit :
    (acc d : ℕ) (s : Text)
    → 48 ≤ d
    → d ≤ 57
    → number_from acc (d ∷ s) ≡ number_from (acc * 10 + (d - 48)) s
unfolding number_from
number_from-digit acc d s h k = ground arith

number_from-reverse :
    (ds s : Text) → AllDigits ds → number_from 0 (reverse ds ++ s) ≡ number_from (value_up ds) s
unfolding value_up
number_from-reverse [] s h = refl
number_from-reverse (d ∷ ds) s h =
    ap (λ t. number_from 0 (t ++ s)) (reverse-append (d ∷ []) ds)
    ∙ ap (number_from 0) (append_assoc (reverse ds) (d ∷ []) s)
    ∙ number_from-reverse ds (d ∷ s) h.2
    ∙ number_from-digit (value_up ds) d s h.0 h.1
    ∙ ap (λ n. number_from n s) (omega arith)

-- Reading back a printed number gives the number, and leaves what stands behind it.
pub number_from-decimal : (n : ℕ) (s : Text) → number_from 0 (decimal n ++ s) ≡ number_from n s
unfolding decimal
number_from-decimal n s =
    number_from-reverse (digits_up (suc n) n) s (digits_up-AllDigits (suc n) n)
    ∙ ap (λ k. number_from k s) (value_up-digits_up (suc n) n (omega arith))

AllDigits-append : (ds es : Text) → AllDigits ds → AllDigits es → AllDigits (ds ++ es)
AllDigits-append [] es h k = k
AllDigits-append (d ∷ ds) es h k = (h.0, h.1, AllDigits-append ds es h.2 k)

AllDigits-reverse : (ds : Text) → AllDigits ds → AllDigits (reverse ds)
AllDigits-reverse [] h = tt
AllDigits-reverse (d ∷ ds) h =
    rw (reverse-append (d ∷ []) ds)
      (AllDigits-append (reverse ds) (d ∷ []) (AllDigits-reverse ds h.2) (h.0, h.1, tt))

reverse_cons : (d : ℕ) (ds : Text) → (e : ℕ) × (es : Text) × (reverse (d ∷ ds) ≡ e ∷ es)
reverse_cons d ds = first (reverse ds) (reverse-append (d ∷ []) ds)
  where
    first :
        (es : Text)
        → reverse (d ∷ ds) ≡ es ++ d ∷ []
        → (e : ℕ) × (fs : Text) × (reverse (d ∷ ds) ≡ e ∷ fs)
    first [] p = (d, [], p)
    first (e ∷ es) p = (e, es ++ d ∷ [], p)

-- A printed number begins with a digit.
pub decimal_head : (n : ℕ) → (d : ℕ) × (ds : Text) × (decimal n ≡ d ∷ ds) × (48 ≤ d) × (d ≤ 57)
unfolding decimal digits_up
decimal_head n =
    let (d, ds, e) = reverse_cons (48 + n % 10) (if ltb n 10 then [] else digits_up n (n / 10)) in
    let digits =
      subst AllDigits e (AllDigits-reverse (digits_up (suc n) n) (digits_up-AllDigits (suc n) n)) in
    (d, ds, e, digits.0, digits.1)
