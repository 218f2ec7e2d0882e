-- ===== src/Tests/Zsets.antt =====
-- A sorted-set server as a function from keys to rows that are kept in order.
use redis_project.Base.{
  ℕ, zero, suc, ◌-◌, ◌≤◌, ◌≡◌, ◌≢◌, refl, ap, ◌∙◌, Bool, List, [], ◌∷◌, reverse, Text, text_eq,
  text_eq_refl, text_eq_ne, length, take, drop, keep, count, leb, ltb, if◌then◌else◌, arith,
}
use redis_project.Base.Int.{ℤ, pos, negsuc}
use redis_project.Redis.Zsets.{Row, AllRows, Ascending, ZsetServer, without, within}

pub record Zset : Type 0 where
  pub rows : List Row
  pub ascending : Ascending rows

abbrev pub Zsets : Type 0
Zsets = Text → Zset

abbrev pub empty : Zset
empty = record { rows = []; ascending = tt }

abbrev pub no_zsets : Zsets
no_zsets k = empty

-- Places a row in front of the first row with no lower score.
abbrev place : Row → List Row → List Row
place r [] = r ∷ []
place r (q ∷ rows) = if leb r.1 q.1 then r ∷ q ∷ rows else q ∷ place r rows

AllRows-place :
    (b : ℕ) (r : Row) (rows : List Row)
    → b ≤ r.1
    → AllRows (λ q. b ≤ q.1) rows
    → AllRows (λ q. b ≤ q.1) (place r rows)
AllRows-place b r [] h k = (h, tt)
AllRows-place b r (q ∷ rows) h k = ground (arith, AllRows-place b r rows h k.1)

AllRows-lower :
    (a b : ℕ) (rows : List Row) → a ≤ b → AllRows (λ q. b ≤ q.1) rows → AllRows (λ q. a ≤ q.1) rows
AllRows-lower a b [] h k = tt
AllRows-lower a b (q ∷ rows) h k = (omega arith, AllRows-lower a b rows h k.1)

pub place-Ascending : (r : Row) (rows : List Row) → Ascending rows → Ascending (place r rows)
place-Ascending r [] h = (tt, tt)
place-Ascending r (q ∷ rows) h =
    ground (arith, place-Ascending r rows h.1, AllRows-place q.1 r rows, AllRows-lower r.1 q.1 rows)

AllRows-keep :
    (b : ℕ) (p : Row → Bool) (rows : List Row)
    → AllRows (λ q. b ≤ q.1) rows
    → AllRows (λ q. b ≤ q.1) (keep p rows)
AllRows-keep b p [] h = tt
AllRows-keep b p (q ∷ rows) h = ground (arith, AllRows-keep b p rows h.1)

pub keep-Ascending : (p : Row → Bool) (rows : List Row) → Ascending rows → Ascending (keep p rows)
keep-Ascending p [] h = tt
keep-Ascending p (q ∷ rows) h =
    ground (arith, keep-Ascending p rows h.1, AllRows-keep q.1 p rows h.0)

pub drop-Ascending : (n : ℕ) (rows : List Row) → Ascending rows → Ascending (drop n rows)
drop-Ascending zero rows h = h
drop-Ascending (suc n) [] h = tt
drop-Ascending (suc n) (q ∷ rows) h = drop-Ascending n rows h.1

pub count-place :
    (p : Row → Bool) (r : Row) (rows : List Row) → count p (place r rows) ≡ count p (r ∷ rows)
count-place p r [] = refl
count-place p r (q ∷ rows) = ground (arith, count-place p r rows)

abbrev put : Zsets → Text → Zset → Zsets
put s k v j = if text_eq j k then v else s j

pub put_self : (s : Zsets) (k : Text) (v : Zset) → put s k v k ≡ v
put_self s k v = rw (text_eq_refl k)

pub put_other : (s : Zsets) (k : Text) (v : Zset) (j : Text) → j ≢ k → put s k v j ≡ s j
put_other s k v j h = rw (text_eq_ne j k h)

abbrev zadd : Zset → Text → ℕ → Zset
zadd v m x = record {
  rows = place (m, x) (without m v.rows);
  ascending = place-Ascending (m, x) (without m v.rows) (keep-Ascending _ v.rows v.ascending);
}

-- The ranges of ranks that the program removes; another range removes nothing.
abbrev remove_ranks : Zset → ℤ → ℤ → Zset
remove_ranks v (pos lo) (negsuc n) = record {
  rows = drop (length v.rows - n) v.rows;
  ascending = drop-Ascending (length v.rows - n) v.rows v.ascending;
}
remove_ranks v _ _ = v

abbrev remove_scores : Zset → ℤ → ℤ → Zset
remove_scores v (pos lo) (pos top) = record {
  rows = keep (λ (r : Row). ltb top r.1) v.rows;
  ascending = keep-Ascending (λ (r : Row). ltb top r.1) v.rows v.ascending;
}
remove_scores v _ _ = v

abbrev pub sample : ZsetServer
sample = record {
  Server = Zsets;
  rows = λ s k. (s k).rows;
  exists = λ s k. ltb 0 (length (s k).rows);
  zcard = λ s k. length (s k).rows;
  zrange = λ s k lo hi. take 1 (s k).rows;
  zrevrange = λ s k lo hi. elim hi [ pos n ↦ take (suc n) (reverse (s k).rows) | negsuc n ↦ [] ];
  zrevrangebyscore = λ s k top n. take n (keep (within top) (reverse (s k).rows));
  zadd = λ s k m x. put s k (zadd (s k) m x);
  zremrangebyrank = λ s k lo hi. put s k (remove_ranks (s k) lo hi);
  zremrangebyscore = λ s k lo hi. put s k (remove_scores (s k) lo hi);
  pexpire = λ s k ttl. s;
  vanish = λ s k. put s k empty;
  rows_ascending = λ s k. (s k).ascending;
  exists_lem = λ s k. refl;
  zcard_lem = λ s k. refl;
  zrange_lowest = λ s k. refl;
  zrevrange_top = λ s k n. refl;
  zrevrangebyscore_lem = λ s k top n. refl;
  rows_zadd = λ s k m x p.
      ap (λ (v : Zset). count p v.rows) (put_self s k (zadd (s k) m x))
      ∙ count-place p (m, x) (without m (s k).rows);
  zadd_other = λ s k m x j h. ap (λ (v : Zset). v.rows) (put_other s k (zadd (s k) m x) j h);
  rows_zremrangebyrank =
      λ s k n. ap (λ (v : Zset). v.rows) (put_self s k (remove_ranks (s k) (pos 0) (negsuc n)));
  zremrangebyrank_other =
      λ s k lo hi j h. ap (λ (v : Zset). v.rows) (put_other s k (remove_ranks (s k) lo hi) j h);
  rows_zremrangebyscore =
      λ s k top. ap (λ (v : Zset). v.rows) (put_self s k (remove_scores (s k) (pos 0) (pos top)));
  rows_zremrangebyscore_none =
      λ s k n. ap (λ (v : Zset). v.rows) (put_self s k (remove_scores (s k) (pos 0) (negsuc n)));
  zremrangebyscore_other =
      λ s k lo hi j h. ap (λ (v : Zset). v.rows) (put_other s k (remove_scores (s k) lo hi) j h);
  rows_pexpire = λ s k ttl j h. refl;
  rows_vanish = λ s k. ap (λ (v : Zset). v.rows) (put_self s k empty);
  vanish_other = λ s k j h. ap (λ (v : Zset). v.rows) (put_other s k empty j h);
}
