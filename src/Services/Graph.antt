-- ===== src/Services/Graph.antt =====
-- Sets of ids and counters under a family of keys, one for each user or post.
use redis_project.Base.{
  ℕ, ◌++◌, ◌≡◌, ◌≢◌, refl, sym, ap, ◌∙◌, inl, inr, Bool, false, ◌&&◌, ◌||◌, [], Text, text_eq,
  text_eq_refl, text_eq_ne, ◌==◌, if◌then◌else◌, Bool-cases, arith,
}
use redis_project.Base.Int.{ℤ, pos}
use redis_project.Keys.Decimal.{decimal, number_from, number_from-decimal}
use redis_project.Redis.Counters.{CounterServer, or_zero, plus_one, minus_one}
use redis_project.Redis.Expiring.{contains}
use redis_project.Redis.Sets.{SetServer}

pub decimal-injective : (a b : ℕ) → decimal a ≡ decimal b → a ≡ b
unfolding number_from
decimal-injective a b e =
    let same = ap (λ t. (number_from 0 (t ++ [])).0) e in
    ap (λ (p : ℕ × Text). p.0) (sym (number_from-decimal a []))
    ∙ same
    ∙ ap (λ (p : ℕ × Text). p.0) (number_from-decimal b [])

pub text_eq-decimal : (a b : ℕ) → text_eq (decimal a) (decimal b) ≡ (a == b)
text_eq-decimal a b = elim (Bool-cases (a == b)) [
  | inl same ↦ let e : a ≡ b = ground arith in rw (same, e) (text_eq_refl (decimal b))
  | inr differs ↦
      rw differs
        (text_eq_ne (decimal a) (decimal b) (λ e. let k = decimal-injective a b e in ground arith))
]

-- Whether the id `y` stands in the set of `x`.
abbrev pub holds : (ℕ → Text) → (g : SetServer) → g.Server → ℕ → ℕ → Bool
holds key g s x y = contains (decimal y) (g.smembers s (key x))

abbrev pub count_at : (ℕ → Text) → (c : CounterServer) → c.Server → ℕ → ℤ
count_at key c s x = or_zero (c.value s (key x))

module _ (key : ℕ → Text) (apart : (a b : ℕ) → a ≢ b → key a ≢ key b) where
  module _ (g : SetServer) where
    open g use {Server, smembers, sadd, srem}

    pub holds-sadd :
        (s : Server) (u m x y : ℕ)
        → holds key g (sadd s (key u) (decimal m)) x y ≡ ((x == u && y == m) || holds key g s x y)
    holds-sadd s u m x y = elim (Bool-cases (x == u)) [
      | inl same ↦
          let e : x ≡ u = ground arith in
          rw (same, e)
            (rw (g.contains_sadd s (key u) (decimal m) (decimal y), text_eq-decimal y m) refl)
      | inr differs ↦
          rw (differs, g.sadd_other s (key u) (decimal m) (key x) (apart x u (λ e. ground arith)))
            refl
    ]

    pub holds-srem :
        (s : Server) (u m x y : ℕ)
        → holds key g (srem s (key u) (decimal m)) x y
          ≡ (if x == u && y == m then false else holds key g s x y)
    holds-srem s u m x y = elim (Bool-cases (x == u)) [
      | inl same ↦
          let e : x ≡ u = ground arith in
          rw (same, e)
            (rw (g.contains_srem s (key u) (decimal m) (decimal y), text_eq-decimal y m)
              (ground arith))
      | inr differs ↦
          rw (differs, g.srem_other s (key u) (decimal m) (key x) (apart x u (λ e. ground arith)))
            refl
    ]

  module _ (c : CounterServer) where
    open c use {Server, value, incr, decr}

    pub count_at-incr :
        (s : Server) (u x : ℕ)
        → count_at key c (incr s (key u)) x
          ≡ (if x == u then plus_one (count_at key c s x) else count_at key c s x)
    count_at-incr s u x = elim (Bool-cases (x == u)) [
      | inl same ↦
          let e : x ≡ u = ground arith in rw (same, e) (ap or_zero (c.value_incr s (key u)))
      | inr differs ↦
          rw differs (ap or_zero (c.incr_other s (key u) (key x) (apart x u (λ e. ground arith))))
    ]

    pub count_at-decr :
        (s : Server) (u x : ℕ)
        → count_at key c (decr s (key u)) x
          ≡ (if x == u then minus_one (count_at key c s x) else count_at key c s x)
    count_at-decr s u x = elim (Bool-cases (x == u)) [
      | inl same ↦
          let e : x ≡ u = ground arith in rw (same, e) (ap or_zero (c.value_decr s (key u)))
      | inr differs ↦
          rw differs (ap or_zero (c.decr_other s (key u) (key x) (apart x u (λ e. ground arith))))
    ]

    -- A counter that is set to the number that it should have keeps all counters right.
    pub count_at-set :
        (s : Server) (f : ℕ → ℕ) (u : ℕ)
        → ((x : ℕ) → count_at key c s x ≡ pos (f x))
        → (x : ℕ) → count_at key c (c.set s (key u) (pos (f u))) x ≡ pos (f x)
    count_at-set s f u h x = elim (Bool-cases (x == u)) [
      | inl same ↦
          let e : x ≡ u = ground arith in rw e (ap or_zero (c.value_set s (key u) (pos (f u))))
      | inr differs ↦
          ap or_zero (c.set_other s (key u) (pos (f u)) (key x) (apart x u (λ e. ground arith)))
          ∙ h x
    ]
