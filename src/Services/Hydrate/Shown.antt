-- ===== src/Services/Hydrate/Shown.antt =====
-- What `hydrate_posts` of app/services/feed_service.py answers, against the tables.
use redis_project.Base.{
  ℕ, ◌≡◌, refl, sym, ap, ◌∙◌, inl, inr, true, Option, none, some, List, [], ◌∷◌, Option-cases,
  arith,
}
use mathlib.Core.Path.{subst}
use redis_project.Backend.{Backend, App}
use redis_project.Base.Int.{pos}
use redis_project.Database.{Post}
use redis_project.Database.Tables.{PostTable}
use redis_project.Services.Accounts.{UserPublic}
use redis_project.Services.Hydrate.{
  PostJson, PostOut, Posts, lookup, at_least, post_out, load_misses, fill_authors, overlay,
  in_order, hydrate_posts,
}
use redis_project.Services.Hydrate.Entries.{
  AllPosts, AllPosts-lookup, among, Entry, IsRight, read_cached_lem,
}
use redis_project.Services.Hydrate.Filled.{Complete, load_misses_lem, fill_authors_lem}
use redis_project.Services.Social.Kept.{ReactionsKept-else, same_reactions}
use redis_project.Services.Social.Reactions.{IsReflected, IsReflected-kept}

module _ (b : Backend) (j : PostJson) (author_of : b.database.Db → ℕ → Option UserPublic) where
  -- A row with its author and the numbers of its likes and comments.
  abbrev pub counted : b.database.Db → ℕ → Post → PostOut
  counted d pid row = record (post_out b j author_of d row) {
    like_count = b.database.like_count d pid;
    comment_count = b.database.comment_count d pid;
  }

  -- The posts of the table, read one by one.
  unfoldable pub shown : b.database.Db → List ℕ → List PostOut
  shown d [] = []
  shown d (pid ∷ post_ids) =
      let rest = shown d post_ids in
      elim (b.database.get_post d pid) [ none ↦ rest | some row ↦ counted d pid row ∷ rest ]

  -- Over a count of 0, the live one counts.
  at_least-zero : (n : ℕ) → at_least 0 (pos n) ≡ n
  unfolding at_least
  at_least-zero n = ground arith

  overlay-counted :
      (pid : ℕ) (row : Post) (post : PostOut) (a : App b)
      → IsReflected b a
      → post ≡ post_out b j author_of a.db row
      → overlay b j author_of pid post a ≡ counted a.db pid row
  unfolding overlay post_out
  overlay-counted pid row post a h e =
      rw
        (
          e,
          h.like_count pid,
          h.comment_count pid,
          at_least-zero (b.database.like_count a.db pid),
          at_least-zero (b.database.comment_count a.db pid),
        )
        refl

  in_order-cons :
      (pid : ℕ) (post_ids : List ℕ) (posts : Posts) (a : App b) (post : PostOut)
      → IsReflected b a
      → lookup pid posts ≡ some post
      → Complete b j author_of a.db pid post
      → in_order b j author_of post_ids posts a ≡ shown a.db post_ids
      → in_order b j author_of (pid ∷ post_ids) posts a ≡ shown a.db (pid ∷ post_ids)
  unfolding in_order shown
  in_order-cons pid post_ids posts a post h found (row, held, e) ih =
      rw (found, held, overlay-counted pid row post a h e, in_order, shown)
        (ap (λ l. counted a.db pid row ∷ l) ih)

  in_order-shown :
      (post_ids : List ℕ) (posts : Posts) (a : App b)
      → IsReflected b a
      → AllPosts (Complete b j author_of a.db) posts
      → ((x : ℕ)
          → among x post_ids ≡ true
          → lookup x posts ≡ none
          → b.database.get_post a.db x ≡ none)
      → in_order b j author_of post_ids posts a ≡ shown a.db post_ids
  unfolding in_order shown among
  in_order-shown [] posts a h complete gone = refl
  in_order-shown (pid ∷ post_ids) posts a h complete gone =
      let ih =
        in_order-shown post_ids posts a h complete
          (λ x there absent. gone x (ground arith) absent) in
      elim (Option-cases (lookup pid posts)) [
        | inl absent ↦ rw (absent, gone pid (ground arith) absent, in_order, shown) ih
        | inr (post, found) ↦
            in_order-cons pid post_ids posts a post h found
              (AllPosts-lookup (Complete b j author_of a.db) pid posts post complete found) ih
      ]

  -- Where whatever is cached of a post is the table's row, its author perhaps missing, and the
  -- counters of likes and comments equal the tables: hydrating answers with the posts of the table
  -- that have the given ids, in the order of the ids, each with its author and its numbers of likes
  -- and comments, wherever the posts come from. What is cached stays right, and no counter and no
  -- row changes.
  pub hydrate_posts_lem :
      (table : PostTable b.database) (post_ids : List ℕ) (a : App b)
      → IsRight b j author_of a
      → IsReflected b a
      → (a' : App b) × (hydrate_posts b j author_of post_ids a ≡ some (shown a.db post_ids, a'))
        × IsRight b j author_of a'
        × (a'.db ≡ a.db)
        × (a'.sets ≡ a.sets)
        × (a'.counters ≡ a.counters)
  unfolding hydrate_posts
  hydrate_posts_lem table post_ids a right h =
      let (cached, misses, e, entries, missed) = read_cached_lem b j author_of post_ids a right in
      let (loaded, a1) = load_misses b j author_of misses cached a in
      let (entries1, n1, missed1) =
        load_misses_lem b j author_of table misses cached a right entries in
      let (result, a2) = fill_authors b j author_of loaded a1 in
      let (complete, n2, missed2) =
        fill_authors_lem b j author_of table loaded a1 n1.right
          (subst (λ d. AllPosts (Entry b j author_of d) loaded) (sym n1.db) entries1) in
      let db = n2.db ∙ n1.db in
      let sets = n2.sets ∙ n1.sets in
      let counters = n2.counters ∙ n1.counters in
      let reflected =
        IsReflected-kept b a a2
          (ReactionsKept-else b a a2 (rw db (same_reactions b a.db)) sets counters) h in
      let answer =
        in_order-shown post_ids result a2 reflected
          (subst (λ d. AllPosts (Complete b j author_of d) result) (sym n2.db) complete)
          (λ x there absent.
            let (before, gone) = missed1 x (missed2 x absent) in
            subst (λ d. b.database.get_post d x ≡ none) (sym db) (gone (missed x there before))) in
      (
        a2,
        rw (e, hydrate_posts) (ap (λ l. some (l, a2)) (answer ∙ ap (λ d. shown d post_ids) db)),
        n2.right,
        db,
        sets,
        counters,
      )
