-- ===== src/Services/Trending/Pruned.antt =====
-- What pruning leaves.
use redis_project.Base.{
  ℕ, ◌<◌, ◌≡◌, refl, ap, sym, ◌∙◌, Bool, true, ◌&&◌, List, [], ◌∷◌, text_eq, text_eq_refl, count,
  count-keep, ltb, ◌==◌, arith,
}
use mathlib.Core.Path.{subst}
use redis_project.Backend.{Backend, App}
use redis_project.Base.Int.{pos}
use redis_project.Keys
use redis_project.Keys.Decimal.{decimal}
use redis_project.Redis.Zsets.{Row, without}
use redis_project.Services.Likes.{record_post_created}
use redis_project.Services.Trending.{prune_trending}

-- Pruning again and again, at the times that are given.
abbrev pub prunings : (b : Backend) → ℕ → List ℕ → App b → App b
prunings b threshold [] a = a
prunings b threshold (now ∷ times) a =
    prunings b threshold times (prune_trending b threshold (record a { now = now })).1

-- A post's row with exactly that score.
abbrev pub row_with : ℕ → ℕ → Row → Bool
row_with post_id score r = text_eq r.0 (decimal post_id) && (r.1 == score)

module _ (b : Backend) (post_id threshold : ℕ) where
  abbrev pub kept : ℕ → App b → ℕ
  kept score a = count (row_with post_id score) (b.zsets.rows a.zsets Keys.trending_posts)

  kept-prunings :
      (score : ℕ) (times : List ℕ) (a : App b)
      → threshold < score
      → kept score (prunings b threshold times a) ≡ kept score a
  unfolding prune_trending
  kept-prunings score [] a above = refl
  kept-prunings score (now ∷ times) a above =
      kept-prunings score times (prune_trending b threshold (record a { now = now })).1 above
      ∙ ap (count (row_with post_id score))
          (b.zsets.rows_zremrangebyscore a.zsets Keys.trending_posts threshold)
      ∙ count-keep (row_with post_id score) (λ r. ltb threshold r.1)
          (b.zsets.rows a.zsets Keys.trending_posts) (λ r h. ground arith)

  -- Where a post's score at its creation is above the threshold, its row with exactly that score is
  -- still among the trending posts after any number of prunings, at whatever times, with nothing
  -- but prunings in between: its age does not lower the score.
  pub prunings-record_post_created :
      (created_at : ℕ) (a : App b)
      → let score = b.trending_score created_at (pos 0) a.now in
        threshold < score
        → (times : List ℕ)
        → 0 < kept score (prunings b threshold times (record_post_created b post_id created_at a))
  unfolding record_post_created
  prunings-record_post_created created_at a above times =
      let score = b.trending_score created_at (pos 0) a.now in
      let same = kept-prunings score times (record_post_created b post_id created_at a) above in
      let added =
        b.zsets.rows_zadd a.zsets Keys.trending_posts (decimal post_id) score
          (row_with post_id score) in
      let own : row_with post_id score (decimal post_id, score) ≡ true =
        rw (text_eq_refl (decimal post_id)) (eq_self score) in
      let one : 0
          < count (row_with post_id score) (
              (decimal post_id, score)
              ∷ without (decimal post_id) (b.zsets.rows a.zsets Keys.trending_posts)) =
        rw own (omega arith) in
      subst (λ n. 0 < n) (sym (same ∙ added)) one
    where
      eq_self : (n : ℕ) → (n == n) ≡ true
      eq_self n = ground arith
