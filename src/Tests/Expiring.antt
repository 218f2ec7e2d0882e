-- ===== src/Tests/Expiring.antt =====
-- Hash and set servers as functions from keys to values with their ends.
use redis_project.Base.{
  ℕ, ◌+◌, ◌≤◌, ◌≡◌, ◌≢◌, refl, ap, ◌∙◌, not, ◌&&◌, ◌||◌, Option, none, some, List, [], ◌∷◌, ◌++◌,
  Text, text_eq, text_eq_refl, text_eq_ne, text_eq_sound, Bool-cases, inl, inr, ltb, if◌then◌else◌,
  arith, keep,
}
use redis_project.Redis.Expiring.{Fields, contains, HashServer, ExpiringSetServer}

-- A value and the time at which it ends.
abbrev pub Timed {ℓ} : Type ℓ → Type ℓ
Timed A = A × Option ℕ

module _ {ℓ} {A : Type ℓ} where
  abbrev pub at : A → ℕ → Timed A → A
  at gone t (a, none) = a
  at gone t (a, some e) = if ltb t e then a else gone

  abbrev pub put : (Text → A) → Text → A → Text → A
  put s k v j = if text_eq j k then v else s j

  pub put_self : (s : Text → A) (k : Text) (v : A) → put s k v k ≡ v
  put_self s k v = rw (text_eq_refl k)

  pub put_other : (s : Text → A) (k : Text) (v : A) (j : Text) → j ≢ k → put s k v j ≡ s j
  put_other s k v j h = rw (text_eq_ne j k h)

abbrev pub Hashes : Type 0
Hashes = Text → Timed (Option Fields)

abbrev pub Sets : Type 0
Sets = Text → Timed (List Text)

abbrev pub no_hashes : Hashes
no_hashes k = (none, none)

abbrev pub no_sets : Sets
no_sets k = ([], none)

abbrev pub merged : Timed (Option Fields) → Option Fields → Fields → Timed (Option Fields)
merged old none fields = (some fields, none)
merged old (some before) fields = (some (fields ++ before), old.1)

pub at-merged :
    (old : Timed (Option Fields)) (t : ℕ) (fields : Fields)
    → at none t old ≡ none
    → at none t (merged old (at none t old) fields) ≡ some fields
at-merged old t fields h = rw h

pub present_before :
    (t u : ℕ) (v : Timed (Option Fields)) (fields : Fields)
    → t ≤ u
    → at none u v ≡ some fields
    → at none t v ≡ some fields
present_before t u (v, none) fields le h = h
present_before t u (v, some e) fields le h = ground arith

abbrev pub hash_sample : HashServer
hash_sample = record {
  Server = Hashes;
  hgetall = λ s t k. at none t (s k);
  hset = λ s t k fields. put s k (merged (s k) (at none t (s k)) fields);
  expire = λ s t k ttl. put s k (at none t (s k), some (t + ttl));
  del = λ s t k. put s k (none, none);
  hgetall_hset = λ s t k fields h.
      ap (at none t) (put_self s k (merged (s k) (at none t (s k)) fields))
      ∙ at-merged (s k) t fields h;
  hset_other = λ s t k fields u j le h.
      ap (at none u) (put_other s k (merged (s k) (at none t (s k)) fields) j h);
  hgetall_expire =
      λ s t k ttl u le. ap (at none u) (put_self s k (at none t (s k), some (t + ttl)));
  expire_other =
      λ s t k ttl u j le h. ap (at none u) (put_other s k (at none t (s k), some (t + ttl)) j h);
  hgetall_del = λ s t k u le. ap (at none u) (put_self s k (none, none));
  del_other = λ s t k u j le h. ap (at none u) (put_other s k (none, none) j h);
  present_before = λ s t u k fields le h. present_before t u (s k) fields le h;
}

abbrev pub without : Text → List Text → List Text
without m = keep (λ (y : Text). not (text_eq y m))

pub contains-without :
    (x m : Text) (l : List Text) → contains x (without m l) ≡ (not (text_eq x m) && contains x l)
unfolding contains
contains-without x m [] = ground arith
contains-without x m (y ∷ l) = elim (Bool-cases (text_eq x y)) [
  | inl same ↦
      let e = text_eq_sound x y same in
      rw (same, e)
        (elim (Bool-cases (text_eq y m)) [
          | inl gone ↦ rw gone (rw (contains-without y m l, gone))
          | inr kept ↦ rw (kept, contains, text_eq_refl y)
        ])
  | inr other ↦ elim (Bool-cases (text_eq y m)) [
    | inl gone ↦ rw (gone, other) (contains-without x m l)
    | inr kept ↦ rw (kept, other) (contains-without x m l)
  ]
]

pub at-without :
    (x m : Text) (u : ℕ) (v : Timed (List Text))
    → contains x (at [] u (without m v.0, v.1)) ≡ (not (text_eq x m) && contains x (at [] u v))
unfolding contains
at-without x m u (l, none) = contains-without x m l
at-without x m u (l, some e) = ground (arith, contains-without x m l)

abbrev pub added : Timed (List Text) → List Text → Text → Timed (List Text)
added old [] m = (m ∷ [], none)
added old (y ∷ l) m = (m ∷ y ∷ l, old.1)

pub at-added :
    (old : Timed (List Text)) (t : ℕ) (m x : Text)
    → contains x (at [] t (added old (at [] t old) m)) ≡ (text_eq x m || contains x (at [] t old))
unfolding contains
at-added ([], none) t m x = refl
at-added (y ∷ l, none) t m x = refl
at-added ([], some e) t m x = elim (Bool-cases (ltb t e)) [ inl b ↦ rw b refl | inr b ↦ rw b refl ]
at-added (y ∷ l, some e) t m x = elim (Bool-cases (ltb t e)) [
  | inl b ↦ rw (b, b) refl
  | inr b ↦ rw b refl
]

abbrev pub set_sample : ExpiringSetServer
set_sample = record {
  Server = Sets;
  smembers = λ s t k. at [] t (s k);
  sadd = λ s t k m. put s k (added (s k) (at [] t (s k)) m);
  srem = λ s t k m. put s k (without m (s k).0, (s k).1);
  expire = λ s t k ttl. put s k (at [] t (s k), some (t + ttl));
  del = λ s t k. put s k ([], none);
  contains_sadd = λ s t k m x.
      ap (λ v. contains x (at [] t v)) (put_self s k (added (s k) (at [] t (s k)) m))
      ∙ at-added (s k) t m x;
  sadd_other = λ s t k m u j le h. ap (at [] u) (put_other s k (added (s k) (at [] t (s k)) m) j h);
  contains_srem = λ s t k m x u le.
      ap (λ v. contains x (at [] u v)) (put_self s k (without m (s k).0, (s k).1))
      ∙ at-without x m u (s k);
  srem_other = λ s t k m u j le h. ap (at [] u) (put_other s k (without m (s k).0, (s k).1) j h);
  smembers_expire = λ s t k ttl u le. ap (at [] u) (put_self s k (at [] t (s k), some (t + ttl)));
  expire_other =
      λ s t k ttl u j le h. ap (at [] u) (put_other s k (at [] t (s k), some (t + ttl)) j h);
  smembers_del = λ s t k u le. ap (at [] u) (put_self s k ([], none));
  del_other = λ s t k u j le h. ap (at [] u) (put_other s k ([], none) j h);
}
