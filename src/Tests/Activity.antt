-- ===== src/Tests/Activity.antt =====
-- Activity logs as functions from keys to lists.
use redis_project.Base.{
  suc, ◌-◌, ◌≡◌, ◌≢◌, refl, ap, ◌∙◌, arith, some, List, [], ◌∷◌, Text, codes, text_eq, length, take,
  keep,
}
use Prim.Native.Nat.{max}
use redis_project.Activity.{Library, record_activity, search_recent}
use redis_project.Activity.Log.{record_activity_lem}
use redis_project.Activity.Search.{decoded, matches, scanned, search_recent_lem}
use redis_project.Base.Int.{ℤ, pos, negsuc}
use redis_project.Keys
use redis_project.Redis.Lists.{ListServer}
use redis_project.Tests.Expiring.{put, put_self, put_other}

abbrev pub Logs : Type 0
Logs = Text → List Text

abbrev pub no_logs : Logs
no_logs k = []

abbrev pub range : ℤ → List Text → List Text
range (pos n) l = take (suc n) l
range (negsuc n) l = take (length l - n) l

take-length : (l : List Text) → take (length l) l ≡ l
take-length [] = refl
take-length (x ∷ l) = ap (λ r. x ∷ r) (take-length l)

pub range_all : (l : List Text) → range (negsuc 0) l ≡ l
range_all l = ap (λ n. take n l) (omega arith) ∙ take-length l

abbrev pub sample : ListServer
sample = record {
  Server = Logs;
  items = λ s k. s k;
  lrange = λ s k stop. range stop (s k);
  lpush = λ s k v. put s k (v ∷ s k);
  ltrim = λ s k n. put s k (take n (s k));
  lrange_first = λ s k n. refl;
  lrange_all = λ s k. range_all (s k);
  items_lpush = λ s k v. put_self s k (v ∷ s k);
  lpush_other = λ s k v j h. put_other s k (v ∷ s k) j h;
  items_ltrim = λ s k n. put_self s k (take n (s k));
  ltrim_other = λ s k n j h. put_other s k (take n (s k)) j h;
}

-- An entry is written as its target alone.
abbrev pub library : Library
library = record {
  dumps = λ a. a.target;
  loads = λ s. some (record { ts = []; user_id = 0; kind = []; target = s });
  lower = λ s. s;
}

abbrev logged : Logs
unfolding record_activity text_eq
logged = record_activity library sample no_logs (codes "t") 7 (codes "post") (codes "ab")

record_activity_lem_example :
    let s' = record_activity library sample no_logs (codes "t") 7 (codes "post") (codes "ab") in
    (s' Keys.recent_activity ≡ codes "ab" ∷ [])
    × (s' (Keys.user_activity 7) ≡ codes "ab" ∷ [])
    × ((j : Text) → j ≢ Keys.recent_activity → j ≢ Keys.user_activity 7 → s' j ≡ [])
record_activity_lem_example =
    record_activity_lem library sample no_logs (codes "t") 7 (codes "post") (codes "ab")

search_recent_lem_example :
    search_recent library sample logged (codes "b") 5 100
    ≡ decoded library (
        take (max 1 5) (
          keep
            (matches library (codes "b"))
            (scanned library sample 100 (logged Keys.recent_activity))))
search_recent_lem_example = search_recent_lem library sample logged (codes "b") 5 100
