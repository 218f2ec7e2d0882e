-- ===== src/Tests/Counters.antt =====
-- Counter and set servers as functions from keys to values.
use redis_project.Base.{
  ◌≡◌, refl, ap, ◌∙◌, ◌||◌, Option, none, some, List, [], ◌∷◌, Text, text_eq, arith,
}
use redis_project.Base.Int.{ℤ}
use redis_project.Redis.Counters.{CounterServer, or_zero, plus_one, minus_one}
use redis_project.Redis.Sets.{SetServer}
use redis_project.Redis.Expiring.{contains}
use redis_project.Tests.Expiring.{put, put_self, put_other, without, contains-without}

abbrev pub Counters : Type 0
Counters = Text → Option ℤ

abbrev pub no_counters : Counters
no_counters k = none

abbrev pub counter_sample : CounterServer
counter_sample = record {
  Server = Counters;
  value = λ s k. s k;
  incr = λ s k. put s k (some (plus_one (or_zero (s k))));
  decr = λ s k. put s k (some (minus_one (or_zero (s k))));
  set = λ s k n. put s k (some n);
  del = λ s k. put s k none;
  expire = λ s k ttl. s;
  value_incr = λ s k. put_self s k (some (plus_one (or_zero (s k))));
  incr_other = λ s k j h. put_other s k (some (plus_one (or_zero (s k)))) j h;
  value_decr = λ s k. put_self s k (some (minus_one (or_zero (s k))));
  decr_other = λ s k j h. put_other s k (some (minus_one (or_zero (s k)))) j h;
  value_set = λ s k n. put_self s k (some n);
  set_other = λ s k n j h. put_other s k (some n) j h;
  value_del = λ s k. put_self s k none;
  del_other = λ s k j h. put_other s k none j h;
  value_expire = λ s k ttl j h. refl;
}

abbrev pub Members : Type 0
Members = Text → List Text

abbrev pub no_members : Members
no_members k = []

pub contains_added :
    (x m : Text) (l : List Text) → contains x (m ∷ without m l) ≡ (text_eq x m || contains x l)
unfolding contains
contains_added x m l = ground (arith, contains-without x m l)

abbrev pub member_sample : SetServer
member_sample = record {
  Server = Members;
  smembers = λ s k. s k;
  sadd = λ s k m. put s k (m ∷ without m (s k));
  srem = λ s k m. put s k (without m (s k));
  contains_sadd =
      λ s k m x. ap (contains x) (put_self s k (m ∷ without m (s k))) ∙ contains_added x m (s k);
  sadd_other = λ s k m j h. put_other s k (m ∷ without m (s k)) j h;
  contains_srem =
      λ s k m x. ap (contains x) (put_self s k (without m (s k))) ∙ contains-without x m (s k);
  srem_other = λ s k m j h. put_other s k (without m (s k)) j h;
}
