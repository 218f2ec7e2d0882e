-- ===== src/Feed/Trim.antt =====
-- What adding a post to a timeline and cutting the timeline leaves in it.
use Prim.Native.Nat.{min}
use redis_project.Base.{
  ℕ, zero, suc, ◌-◌, ◌≤◌, ◌≡◌, ◌≢◌, refl, ◌∙◌, inl, inr, Bool, true, List, [], ◌∷◌, Text,
  Bool-cases, arith, leb, length, drop, count, count-le-length, length-drop,
}
use mathlib.Core.Path.{subst}
use redis_project.Base.Int.{pos, negsuc}
use redis_project.Keys.Decimal.{decimal}
use redis_project.Redis.Zsets.{Row, ZsetServer, AllRows, Ascending, without}
use redis_project.Feed.{feed_max_size, push_commands, execute}

-- The row's score is at least `x`.
abbrev pub above : ℕ → Row → Bool
above x r = leb x r.1

count-above-all :
    (x b : ℕ) (rows : List Row)
    → x ≤ b
    → AllRows (λ r. b ≤ r.1) rows
    → count (above x) rows ≡ length rows
count-above-all x b [] h k = refl
count-above-all x b (r ∷ rows) h k = ground (arith, count-above-all x b rows h k.1)

-- Dropping the lowest rows takes rows of a high score last.
pub count-above-drop :
    (x k : ℕ) (rows : List Row)
    → Ascending rows
    → count (above x) (drop k rows) ≡ min (count (above x) rows) (length rows - k)
count-above-drop x zero rows h = omega (arith, count-le-length (above x) rows)
count-above-drop x (suc k) [] h = omega arith
count-above-drop x (suc k) (r ∷ rows) h = elim (Bool-cases (leb x r.1)) [
  | inl high ↦
      let all = count-above-all x r.1 rows (ground arith) h.0 in
      rw high (omega (arith, count-above-drop x k rows h.1, all))
  | inr low ↦ rw low (omega (arith, count-above-drop x k rows h.1))
]

-- If no more rows have a score of at least `x` than are left, all of those are left.
count-drop-above :
    (x k : ℕ) (p : Row → Bool) (rows : List Row)
    → ((r : Row) → p r ≡ true → x ≤ r.1)
    → Ascending rows
    → count (above x) rows ≤ length rows - k
    → count p (drop k rows) ≡ count p rows
count-drop-above x zero p rows h a few = refl
count-drop-above x (suc k) p [] h a few = refl
count-drop-above x (suc k) p (r ∷ rows) h a few = elim (Bool-cases (leb x r.1)) [
  | inl high ↦
      let all = count-above-all x r.1 rows (ground arith) a.0 in absurd (ground (arith, all))
  | inr low ↦ elim (Bool-cases (p r)) [
    | inl passes ↦ absurd (ground (arith, h r passes))
    | inr fails ↦ rw fails (count-drop-above x k p rows h a.1 (ground arith))
  ]
]

-- The rows of a timeline to which a post has been added.
abbrev pub with_post : ℕ → ℕ → List Row → List Row
with_post post_id score old = (decimal post_id, score) ∷ without (decimal post_id) old

-- The timeline holds the post's row and the other old rows, cut to the newest `feed_max_size`: for
-- every score it has as many rows of that score or more, up to that size; and where these are no
-- more than that size, they are the very same rows.
abbrev pub Pushed : ℕ → ℕ → List Row → List Row → Type 0
Pushed post_id score old new =
    (x : ℕ)
    → (count (above x) new ≡ min feed_max_size (count (above x) (with_post post_id score old)))
      × ((p : Row → Bool)
          → ((r : Row) → p r ≡ true → x ≤ r.1)
          → count (above x) (with_post post_id score old) ≤ feed_max_size
          → count p new ≡ count p (with_post post_id score old))

pub move-Pushed :
    (post_id score : ℕ) {old old' new new' : List Row}
    → old ≡ old'
    → new ≡ new'
    → Pushed post_id score old new
    → Pushed post_id score old' new'
move-Pushed post_id score {old} {old'} {new} {new'} p q h =
    subst (λ n. Pushed post_id score old' n) q (subst (λ o. Pushed post_id score o new) p h)

module _ (z : ZsetServer) (s : z.Server) (key : Text) (post_id score : ℕ) where
  pub push-Pushed :
      Pushed post_id score
        (z.rows s key)
        (z.rows (execute z s (push_commands key post_id score)) key)
  unfolding push_commands execute
  push-Pushed x =
      let s1 = z.zadd s key (decimal post_id) score in
      let n = length (z.rows s1 key) in
      rw (z.rows_zremrangebyrank s1 key feed_max_size) (
        omega (
          arith,
          count-above-drop x (n - feed_max_size) (z.rows s1 key) (z.rows_ascending s1 key),
          z.rows_zadd s key (decimal post_id) score (above x),
          count-le-length (above x) (z.rows s1 key),
        ),
        λ p h few.
            count-drop-above x (n - feed_max_size) p (z.rows s1 key) h (z.rows_ascending s1 key) (
              omega (
                arith,
                z.rows_zadd s key (decimal post_id) score (above x),
                count-le-length (above x) (z.rows s1 key),
              ))
            ∙ z.rows_zadd s key (decimal post_id) score p,
      )

  pub length-push :
      length (z.rows (execute z s (push_commands key post_id score)) key) ≤ feed_max_size
  unfolding push_commands execute
  length-push =
      let s1 = z.zadd s key (decimal post_id) score in
      rw (z.rows_zremrangebyrank s1 key feed_max_size)
        (omega (arith, length-drop (length (z.rows s1 key) - feed_max_size) (z.rows s1 key)))

  pub push_other :
      (j : Text) → j ≢ key → z.rows (execute z s (push_commands key post_id score)) j ≡ z.rows s j
  unfolding push_commands execute
  push_other j ne =
      z.zremrangebyrank_other (z.zadd s key (decimal post_id) score) key (pos 0)
        (negsuc feed_max_size) j ne
      ∙ z.zadd_other s key (decimal post_id) score j ne
