-- ===== src/Feed/Home.antt =====
-- What a home feed shows.
use Prim.Native.Nat.{max}
use redis_project.Base.{
  ℕ, ◌≡◌, refl, sym, ap, ◌∙◌, inl, inr, Option, none, some, List, [], ◌∷◌, map, Bool-cases, arith,
  ◌==◌, if◌then◌else◌, take,
}
use mathlib.Core.Option
use redis_project.Keys
use redis_project.Redis.Zsets.{Row, ZsetServer}
use redis_project.Redis.Counters.{CounterServer}
use redis_project.Redis.Sets.{SetServer}
use redis_project.Feed.{
  Scores, lookup, store, from_home, merge_rows, merge_timelines, celebrities, followed_scores,
  merged_scores, sort_by_score, top_ids, int_of, backfill_global_recent_feed, home_feed_ids,
}
use redis_project.Feed.Top.{IsTop, top_ids_lem}
use redis_project.Feed.Merge.{IsDict, from_home-IsDict, merge_rows-IsDict, lookup-store}

-- The higher of two scores that may be missing.
abbrev pub higher : Option ℕ → Option ℕ → Option ℕ
higher none b = b
higher (some x) none = some x
higher (some x) (some y) = some (max x y)

higher_assoc : (a b c : Option ℕ) → higher (higher a b) c ≡ higher a (higher b c)
higher_assoc none b c = refl
higher_assoc (some x) none c = refl
higher_assoc (some x) (some y) none = refl
higher_assoc (some x) (some y) (some w) = ap some (omega arith)

higher-none : (a : Option ℕ) → higher a none ≡ a
higher-none none = refl
higher-none (some x) = refl

-- The highest score of an id among rows.
abbrev pub best : ℕ → List Row → Option ℕ
best j [] = none
best j ((m, x) ∷ rows) = if int_of m == j then higher (some x) (best j rows) else best j rows

raise :
    (x : ℕ) (a b : Option ℕ)
    → higher (some (max x (Option.get_or a 0))) b ≡ higher a (higher (some x) b)
raise x none none = ap some (omega arith)
raise x none (some w) = ap some (omega arith)
raise x (some y) none = ap some (omega arith)
raise x (some y) (some w) = ap some (omega arith)

lookup-merge_rows :
    (j : ℕ) (rows : List Row) (d : Scores)
    → lookup j (merge_rows rows d) ≡ higher (lookup j d) (best j rows)
unfolding merge_rows
lookup-merge_rows j [] d = sym (higher-none (lookup j d))
lookup-merge_rows j ((m, x) ∷ rows) d =
    let d' = store (int_of m) (max x (Option.get_or (lookup (int_of m) d) 0)) d in
    lookup-merge_rows j rows d'
    ∙ ap (λ o. higher o (best j rows)) (lookup-store j (int_of m) _ d)
    ∙ elim (Bool-cases (int_of m == j)) [
      | inl same ↦
          let e : int_of m ≡ j = ground arith in
          rw same (
            ap (λ k. higher (some (max x (Option.get_or (lookup k d) 0))) (best j rows)) e
            ∙ raise x (lookup j d) (best j rows))
      | inr other ↦ rw other
    ]

module _ (z : ZsetServer) where
  -- The highest score of an id in the timelines of the celebrities.
  abbrev pub best_of : z.Server → Option ℕ → ℕ → ℕ → List ℕ → Option ℕ
  best_of s before_ts limit j [] = none
  best_of s before_ts limit j (cid ∷ cids) =
      higher (best j (z.zrevrangebyscore s (Keys.user_posts cid) before_ts limit))
        (best_of s before_ts limit j cids)

  lookup-merge_timelines :
      (s : z.Server) (before_ts : Option ℕ) (limit j : ℕ) (cids : List ℕ) (d : Scores)
      → lookup j (merge_timelines z s before_ts limit cids d)
        ≡ higher (lookup j d) (best_of s before_ts limit j cids)
  unfolding merge_timelines
  lookup-merge_timelines s before_ts limit j [] d = sym (higher-none (lookup j d))
  lookup-merge_timelines s before_ts limit j (cid ∷ cids) d =
      lookup-merge_timelines s before_ts limit j cids _
      ∙ ap (λ o. higher o (best_of s before_ts limit j cids))
          (unfold merge_rows in
            lookup-merge_rows j (z.zrevrangebyscore s (Keys.user_posts cid) before_ts limit) d)
      ∙ higher_assoc (lookup j d) _ _

  merge_timelines-IsDict :
      (s : z.Server) (before_ts : Option ℕ) (limit : ℕ) (cids : List ℕ) (d : Scores)
      → IsDict d
      → IsDict (merge_timelines z s before_ts limit cids d)
  unfolding merge_timelines
  merge_timelines-IsDict s before_ts limit [] d h = h
  merge_timelines-IsDict s before_ts limit (cid ∷ cids) d h =
      merge_timelines-IsDict s before_ts limit cids _
        (merge_rows-IsDict (z.zrevrangebyscore s (Keys.user_posts cid) before_ts limit) d h)

  module _ (c : CounterServer) (g : SetServer) (s : z.Server) (counters : c.Server)
      (sets : g.Server) (recent : List (ℕ × ℕ)) (user_id limit : ℕ) (before_ts : Option ℕ) where
    -- The score of a post in the merged feed: its score in the home feed, or a higher one in the
    -- timeline of a celebrity that the user follows or in the global feed.
    abbrev pub feed_score : ℕ → Option ℕ
    feed_score j =
        higher
          (higher
            (lookup j
              (from_home (z.zrevrangebyscore s (Keys.home_feed user_id) before_ts limit) []))
            (best_of s before_ts limit j
              (celebrities z c g counters (g.smembers sets (Keys.user_following user_id)))))
          (best j (
            z.zrevrangebyscore (backfill_global_recent_feed z s recent) Keys.global_recent_feed
              before_ts limit))

    -- The home feed shows the top posts by their scores in the materialised feed, the timelines of
    -- the followed celebrities and the global feed, each up to `before_ts`: at most `limit`, each
    -- once, by falling score, and a post is left out only for `limit` posts with scores as high.
    pub home_feed_ids_lem :
        (top : Scores) × ((home_feed_ids z c g s counters sets recent user_id limit before_ts).0
          ≡ map (λ (e : ℕ × ℕ). e.0) top)
        × IsTop limit feed_score top
    unfolding home_feed_ids merged_scores followed_scores top_ids
    home_feed_ids_lem = (
      take limit (sort_by_score merged),
      refl,
      top_ids_lem limit feed_score merged
          (merge_rows-IsDict global followed (
            merge_timelines-IsDict s before_ts limit celebrity_ids home_scores
              (from_home-IsDict home [] tt)))
          (λ j.
            lookup-merge_rows j global followed
            ∙ ap (λ o. higher o (best j global))
                (lookup-merge_timelines s before_ts limit j celebrity_ids home_scores)),
    )
      where
        home : List Row
        home = z.zrevrangebyscore s (Keys.home_feed user_id) before_ts limit

        home_scores : Scores
        home_scores = from_home home []

        celebrity_ids : List ℕ
        celebrity_ids = celebrities z c g counters (g.smembers sets (Keys.user_following user_id))

        followed : Scores
        followed = merge_timelines z s before_ts limit celebrity_ids home_scores

        global : List Row
        global =
            z.zrevrangebyscore (backfill_global_recent_feed z s recent) Keys.global_recent_feed
              before_ts limit

        merged : Scores
        merged = merge_rows global followed
