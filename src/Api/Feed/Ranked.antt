-- ===== src/Api/Feed/Ranked.antt =====
-- The rows of `trending` of app/api/feed.py, against the tables.
use redis_project.Base.{
  ℕ, ◌≡◌, refl, ap, ◌∙◌, inl, inr, true, Option, none, some, List, [], ◌∷◌, map, ◌==◌, Bool-cases,
  Option-cases, arith,
}
use redis_project.Api.Feed.{TrendingPost, by_id, ranked}
use redis_project.Backend.{Backend}
use redis_project.Database.{Post}
use redis_project.Database.Tables.{PostTable}
use redis_project.Services.Accounts.{UserPublic}
use redis_project.Services.Hydrate.{PostJson, PostOut, Posts, lookup, post_out}
use redis_project.Services.Hydrate.Entries.{AllPosts, AllPosts-lookup, lookup-none, among}
use redis_project.Services.Hydrate.Shown.{counted, shown}

module _ (b : Backend) (j : PostJson) (author_of : b.database.Db → ℕ → Option UserPublic)
    (d : b.database.Db) where
  -- The trending rows whose posts are in the table, with those posts.
  unfoldable pub ranked_rows : List (ℕ × ℕ) → List TrendingPost
  ranked_rows [] = []
  ranked_rows ((pid, score) ∷ top) =
      let rest = ranked_rows top in
      elim (b.database.get_post d pid) [
        | none ↦ rest
        | some row ↦ record { post = counted b j author_of d pid row; score = score } ∷ rest
      ]

  abbrev Standing : ℕ → PostOut → Type 0
  Standing pid post =
      (row : Post) × (b.database.get_post d pid ≡ some row)
      × (post ≡ counted b j author_of d pid row)

  -- A dict of the shown posts has each of them under its id.
  abbrev Indexed : List ℕ → Posts → Posts → Type 0
  Indexed ids posts result =
      AllPosts Standing result
      × ((x : ℕ)
          → lookup x result ≡ none
          → (lookup x posts ≡ none) × (among x ids ≡ true → b.database.get_post d x ≡ none))

  ranked_found :
      (pid score : ℕ) (top : List (ℕ × ℕ)) (result : Posts) (post : PostOut)
      → Standing pid post
      → lookup pid result ≡ some post
      → ranked top result ≡ ranked_rows top
      → ranked ((pid, score) ∷ top) result ≡ ranked_rows ((pid, score) ∷ top)
  unfolding ranked ranked_rows
  ranked_found pid score top result post (row, held, e) found ih =
      rw (found, held, e, ranked, ranked_rows)
        (ap
          (λ (l : List TrendingPost).
            record { post = counted b j author_of d pid row; score = score } ∷ l)
          ih)

  module _ (table : PostTable b.database) where
    by_id-shown :
        (ids : List ℕ) (posts : Posts)
        → AllPosts Standing posts
        → Indexed ids posts (by_id (shown b j author_of d ids) posts)
    unfolding by_id shown among post_out lookup
    by_id-shown [] posts h = (h, λ x absent. (absent, λ e. absurd (cc e)))
    by_id-shown (pid ∷ ids) posts h = elim (Option-cases (b.database.get_post d pid)) [
      | inl missing ↦
          let (all, gone) = by_id-shown ids posts h in
          rw (missing, shown, by_id)
            (
              all,
              λ x absent.
                  let (before, rest) = gone x absent in
                  (
                    before,
                    λ there. elim (Bool-cases (x == pid)) [
                      | inl same ↦ let q : x ≡ pid = ground arith in rw q missing
                      | inr other ↦ rest (ground arith)
                    ],
                  ),
            )
      | inr (row, found) ↦
          let q = table.get_post_id d pid row found in
          let out = counted b j author_of d pid row in
          let entry : Standing row.id out =
            (row, ap (b.database.get_post d) q ∙ found, rw q refl) in
          let (all, gone) = by_id-shown ids ((row.id, out) ∷ posts) (entry, h) in
          rw (found, shown, by_id)
            (
              all,
              λ x absent.
                  let (before, rest) = gone x absent in
                  let (other, others) = lookup-none x row.id out posts before in
                  (others, λ there. rest (ground (arith, q))),
            )
    ]

    ranked-rows :
        (top : List (ℕ × ℕ)) (ids : List ℕ) (result : Posts)
        → Indexed ids [] result
        → ((x : ℕ) → among x (map (λ (e : ℕ × ℕ). e.0) top) ≡ true → among x ids ≡ true)
        → ranked top result ≡ ranked_rows top
    unfolding ranked ranked_rows among
    ranked-rows [] ids result h inside = refl
    ranked-rows ((pid, score) ∷ top) ids result (all, gone) inside =
        let ih = ranked-rows top ids result (all, gone) (λ x there. inside x (ground arith)) in
        elim (Option-cases (lookup pid result)) [
          | inl absent ↦
              rw (absent, (gone pid absent).1 (inside pid (ground arith)), ranked, ranked_rows) ih
          | inr (post, found) ↦
              ranked_found pid score top result post
                (AllPosts-lookup Standing pid result post all found) found ih
        ]

    -- The answer of `trending` is made of the rows whose posts are in the table.
    pub ranked-by_id :
        (top : List (ℕ × ℕ))
        → ranked top (by_id (shown b j author_of d (map (λ (e : ℕ × ℕ). e.0) top)) [])
          ≡ ranked_rows top
    ranked-by_id top =
        let ids = map (λ (e : ℕ × ℕ). e.0) top in
        ranked-rows top ids (by_id (shown b j author_of d ids) []) (by_id-shown ids [] tt)
          (λ x there. there)
