-- ===== src/Tests/Strings.antt =====
-- A string server as a function from keys to values with their ends.
use redis_project.Base.{
  ℕ, ◌+◌, ◌≤◌, ◌≡◌, ◌≢◌, refl, ap, Bool, true, false, Option, none, some, Text, text_eq,
  text_eq_refl, text_eq_ne, ltb, if◌then◌else◌, arith,
}
use mathlib.Core.Option
use redis_project.Redis.Strings.{StringServer}

pub record Entry : Type 0 where
  pub value : Text
  pub ends : Option ℕ

abbrev pub Strings : Type 0
Strings = Text → Option Entry

abbrev pub no_strings : Strings
no_strings k = none

abbrev pub alive : ℕ → Option Entry → Option Text
alive t none = none
alive t (some e) = elim e.ends [
  | none ↦ some e.value
  | some u ↦ if ltb t u then some e.value else none
]

abbrev pub put : Strings → Text → Option Entry → Strings
put s k e j = if text_eq j k then e else s j

pub put_self : (s : Strings) (k : Text) (e : Option Entry) → put s k e k ≡ e
put_self s k e = rw (text_eq_refl k)

pub put_other : (s : Strings) (k : Text) (e : Option Entry) (j : Text) → j ≢ k → put s k e j ≡ s j
put_other s k e j h = rw (text_eq_ne j k h)

abbrev pub entry : ℕ → Text → Option ℕ → Entry
entry t v ttl = record { value = v; ends = Option.map (λ n. t + n) ttl }

abbrev pub try_set : Strings → ℕ → Text → Text → ℕ → Option Text → Bool × Strings
try_set s t k v ttl none = (true, put s k (some (entry t v (some ttl))))
try_set s t k v ttl (some w) = (false, s)

abbrev pub removed : Option Text → ℕ
removed none = 0
removed (some v) = 1

pub alive_absent : (t u : ℕ) (e : Option Entry) → t ≤ u → alive t e ≡ none → alive u e ≡ none
alive_absent t u none le h = refl
alive_absent t u (some e) le h = ground arith

pub alive_before :
    (t u : ℕ) (e : Option Entry) (v : Text) → t ≤ u → alive u e ≡ some v → alive t e ≡ some v
alive_before t u none v le h = cc
alive_before t u (some e) v le h = ground arith

abbrev pub sample : StringServer
sample = record {
  Server = Strings;
  get = λ s t k. alive t (s k);
  set = λ s t k v ttl. put s k (some (entry t v ttl));
  set_nx = λ s t k v ttl. try_set s t k v ttl (alive t (s k));
  del = λ s t k. (removed (alive t (s k)), put s k none);
  get_set = λ s t k v ttl u le. ap (alive u) (put_self s k (some (entry t v (some ttl))));
  get_set_forever = λ s t k v u le. ap (alive u) (put_self s k (some (entry t v none)));
  set_other = λ s t k v ttl u j le h. ap (alive u) (put_other s k (some (entry t v ttl)) j h);
  set_nx_absent = λ s t k v ttl h. ap (try_set s t k v ttl) h;
  set_nx_present = λ s t k v ttl w h. ap (try_set s t k v ttl) h;
  del_present = λ s t k v h. ap removed h;
  del_absent = λ s t k h. ap removed h;
  get_del = λ s t k u le. ap (alive u) (put_self s k none);
  del_other = λ s t k u j le h. ap (alive u) (put_other s k none j h);
  absent_later = λ s t u k le h. alive_absent t u (s k) le h;
  present_before = λ s t u k v le h. alive_before t u (s k) v le h;
}
