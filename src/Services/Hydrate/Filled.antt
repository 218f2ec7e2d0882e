-- ===== src/Services/Hydrate/Filled.antt =====
-- The posts that `hydrate_posts` of app/services/feed_service.py loads, and their authors.
use redis_project.Base.{
  ℕ, ◌≡◌, refl, sym, ap, ◌∙◌, inl, inr, true, Option, none, some, List, [], ◌∷◌, ◌==◌, Bool-cases,
  Option-cases, arith,
}
use mathlib.Core.Path.{subst}
use redis_project.Backend.{Backend, App}
use redis_project.Database.{Post}
use redis_project.Database.Tables.{PostTable}
use redis_project.Services.Accounts.{UserPublic}
use redis_project.Services.Hydrate.{
  PostJson, PostOut, Posts, lookup, post_out, cache_post, load_misses, fill_authors,
}
use redis_project.Services.Hydrate.Entries.{
  AllPosts, among, lookup-none, Entry, IsRight, cache_post-IsRight,
}

module _ (b : Backend) (j : PostJson) (author_of : b.database.Db → ℕ → Option UserPublic) where
  -- The caches are right, and the rest of what is read later is the same.
  pub record Next (a a' : App b) : Type 0 where
    pub right : IsRight b j author_of a'
    pub db : a'.db ≡ a.db
    pub sets : a'.sets ≡ a.sets
    pub counters : a'.counters ≡ a.counters

  cache_post-Next :
      (post : PostOut) (a a' : App b)
      → Entry b j author_of a.db post.id post
      → Next a a'
      → Next a (cache_post b j author_of post a')
  unfolding cache_post
  cache_post-Next post a a' entry n = record {
    right =
        cache_post-IsRight b j author_of post a'
          (subst (λ d. Entry b j author_of d post.id post) (sym n.db) entry) n.right;
    db = n.db;
    sets = n.sets;
    counters = n.counters;
  }

  -- The loaded posts are right, and a post that is without entry had none before and is not in the
  -- table.
  abbrev pub Loaded : List ℕ → Posts → App b → Posts × App b → Type 0
  Loaded misses result a (result', a') =
      AllPosts (Entry b j author_of a.db) result'
      × Next a a'
      × ((x : ℕ)
          → lookup x result' ≡ none
          → (lookup x result ≡ none) × (among x misses ≡ true → b.database.get_post a.db x ≡ none))

  module _ (table : PostTable b.database) where
    pub load_misses_lem :
        (misses : List ℕ) (result : Posts) (a : App b)
        → IsRight b j author_of a
        → AllPosts (Entry b j author_of a.db) result
        → Loaded misses result a (load_misses b j author_of misses result a)
    unfolding load_misses lookup among
    load_misses_lem [] result a right entries = (
      entries,
      record { right = right; db = refl; sets = refl; counters = refl },
      λ x absent. (absent, λ e. absurd (cc e)),
    )
    load_misses_lem (pid ∷ misses) result a right entries =
        let (entries', n, missed) = load_misses_lem misses result a right entries in
        elim (Option-cases (b.database.get_post a.db pid)) [
          | inl missing ↦
              rw (missing, load_misses)
                (
                  entries',
                  n,
                  λ x absent.
                      let (before, gone) = missed x absent in
                      (
                        before,
                        λ there. elim (Bool-cases (x == pid)) [
                          | inl same ↦ let q : x ≡ pid = ground arith in rw q missing
                          | inr other ↦ gone (ground arith)
                        ],
                      ),
                )
          | inr (row, found) ↦
              let q = table.get_post_id a.db pid row found in
              let out = post_out b j author_of a.db row in
              let entry : Entry b j author_of a.db row.id out =
                (row, ap (b.database.get_post a.db) q ∙ found, inl refl) in
              rw (found, load_misses)
                (
                  (entry, entries'),
                  cache_post-Next out a _ entry n,
                  λ x absent.
                      let (other, rest) = lookup-none x row.id out _ absent in
                      let (before, gone) = missed x rest in
                      (before, λ there. gone (ground (arith, q))),
                )
        ]

  -- A post as the table has it, with its author.
  abbrev pub Complete : b.database.Db → ℕ → PostOut → Type 0
  Complete d pid post =
      (row : Post) × (b.database.get_post d pid ≡ some row) × (post ≡ post_out b j author_of d row)

  abbrev pub Finished : Posts → App b → Posts × App b → Type 0
  Finished posts a (posts', a') =
      AllPosts (Complete a.db) posts'
      × Next a a'
      × ((x : ℕ) → lookup x posts' ≡ none → lookup x posts ≡ none)

  -- A post that has an author is complete.
  authored-Complete :
      (d : b.database.Db) (pid : ℕ) (post : PostOut) (author : UserPublic)
      → post.author ≡ some author
      → Entry b j author_of d pid post
      → Complete d pid post
  authored-Complete d pid post author has (row, found, inl e) = (row, found, e)
  authored-Complete d pid post author has (row, found, inr e) =
      let lost : some author ≡ none = sym has ∙ ap (λ (p : PostOut). p.author) e in absurd (cc lost)

  -- The author from the table makes any entry complete.
  filled-Complete :
      (d : b.database.Db) (pid : ℕ) (post : PostOut)
      → Entry b j author_of d pid post
      → Complete d pid (record post { author = author_of d post.author_id })
  unfolding post_out
  filled-Complete d pid post (row, found, inl e) =
      (row, found, ap (λ (p : PostOut). record p { author = author_of d p.author_id }) e)
  filled-Complete d pid post (row, found, inr e) =
      (row, found, ap (λ (p : PostOut). record p { author = author_of d p.author_id }) e)

  module _ (table : PostTable b.database) where
    Complete-Entry :
        (d : b.database.Db) (pid : ℕ) (post : PostOut)
        → Complete d pid post
        → Entry b j author_of d post.id post
    unfolding post_out
    Complete-Entry d pid post (row, found, e) =
        let q : post.id ≡ pid = ap (λ (p : PostOut). p.id) e ∙ table.get_post_id d pid row found in
        (row, ap (b.database.get_post d) q ∙ found, inl e)

    pub fill_authors_lem :
        (posts : Posts) (a : App b)
        → IsRight b j author_of a
        → AllPosts (Entry b j author_of a.db) posts
        → Finished posts a (fill_authors b j author_of posts a)
    unfolding fill_authors lookup
    fill_authors_lem [] a right entries =
        (tt, record { right = right; db = refl; sets = refl; counters = refl }, λ x absent. absent)
    fill_authors_lem ((pid, post) ∷ posts) a right (entry, entries) =
        let (complete, n, missed) = fill_authors_lem posts a right entries in
        elim (Option-cases post.author) [
          | inr (author, has) ↦
              rw (has, fill_authors)
                (
                  (authored-Complete a.db pid post author has entry, complete),
                  n,
                  λ x absent.
                      let (other, rest) = lookup-none x pid post _ absent in
                      rw other (missed x rest),
                )
          | inl anonymous ↦
              let filled = record post { author = author_of a.db post.author_id } in
              let whole = filled-Complete a.db pid post entry in
              rw (anonymous, fill_authors)
                (
                  (whole, complete),
                  cache_post-Next filled a _ (Complete-Entry a.db pid filled whole) n,
                  λ x absent.
                      let (other, rest) = lookup-none x pid filled _ absent in
                      rw other (missed x rest),
                )
        ]
