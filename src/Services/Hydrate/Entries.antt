-- ===== src/Services/Hydrate/Entries.antt =====
-- The posts that `hydrate_posts` of app/services/feed_service.py finds in the cache.
use redis_project.Base.{
  ℕ, ◌+◌, ◌*◌, ◌/◌, ◌≤◌, ◌≡◌, refl, sym, ap, ◌∙◌, ◌⊎◌, inl, inr, Bool, true, false, ◌||◌, Option,
  none, some, List, [], ◌∷◌, Text, ltb, ◌==◌, if◌then◌else◌, Bool-cases, Option-cases, arith,
}
use mathlib.Core.Path.{subst}
use redis_project.Backend.{Backend, App}
use redis_project.Database.{Post}
use redis_project.Keys
use redis_project.Keys.Social.{post_cache-ne}
use redis_project.Services.Accounts.{UserPublic}
use redis_project.Services.Hydrate.{
  PostJson, PostOut, Posts, lookup, post_out, cache_post, read_cached,
}
use redis_project.Services.Posts.{post_cache_ttl}

abbrev pub AllPosts : (ℕ → PostOut → Type 0) → Posts → Type 0
AllPosts P [] = Unit
AllPosts P ((pid, post) ∷ posts) = P pid post × AllPosts P posts

-- `x in ids`
unfoldable pub among : ℕ → List ℕ → Bool
among x [] = false
among x (y ∷ ids) = (x == y) || among x ids

pub AllPosts-lookup :
    (P : ℕ → PostOut → Type 0) (pid : ℕ) (posts : Posts) (post : PostOut)
    → AllPosts P posts
    → lookup pid posts ≡ some post
    → P pid post
unfolding lookup
AllPosts-lookup P pid [] post h e = absurd (cc e)
AllPosts-lookup P pid ((id, p) ∷ posts) post h e = elim (Bool-cases (id == pid)) [
  | inl same ↦
      let found : some p ≡ some post =
        ap (λ c. if c then some p else lookup pid posts) (sym same) ∙ e in
      let q : p ≡ post = cc found in let k : id ≡ pid = ground arith in rw (sym k, sym q) h.0
  | inr other ↦
      AllPosts-lookup P pid posts post h.1
        (ap (λ c. if c then some p else lookup pid posts) (sym other) ∙ e)
]

-- What a dict without `x` says of its first entry, and of the others.
pub lookup-none :
    (x pid : ℕ) (post : PostOut) (posts : Posts)
    → lookup x ((pid, post) ∷ posts) ≡ none
    → ((pid == x) ≡ false) × (lookup x posts ≡ none)
unfolding lookup
lookup-none x pid post posts e = elim (Bool-cases (pid == x)) [
  | inl same ↦
      let found : some post ≡ none =
        ap (λ c. if c then some post else lookup x posts) (sym same) ∙ e in
      absurd (cc found)
  | inr other ↦ (other, ap (λ c. if c then some post else lookup x posts) (sym other) ∙ e)
]

kept : (c : Bool) (v blob : Text) → (if c then some v else none) ≡ some blob → v ≡ blob
kept true v blob e = cc e
kept false v blob e = absurd (cc e)

module _ (b : Backend) (j : PostJson) (author_of : b.database.Db → ℕ → Option UserPublic) where
  -- A post as the table has it, but that its author may be missing.
  abbrev pub Entry : b.database.Db → ℕ → PostOut → Type 0
  Entry d pid post =
      (row : Post) × (b.database.get_post d pid ≡ some row)
      × ((post ≡ post_out b j author_of d row)
          ⊎ (post ≡ record (post_out b j author_of d row) { author = none }))

  -- Whatever the cache holds of a post is such a post, now and as long as nobody writes.
  abbrev pub IsRight : App b → Type 0
  IsRight a =
      (pid u : ℕ) (blob : Text)
      → a.now / 1000 ≤ u
      → b.strings.get a.strings u (Keys.post_cache pid) ≡ some blob
      → (post : PostOut) × (j.loads blob ≡ some post) × Entry a.db pid post

  pub IsRight-same :
      (a a' : App b)
      → a'.strings ≡ a.strings
      → a'.db ≡ a.db
      → a'.now ≡ a.now
      → IsRight a
      → IsRight a'
  IsRight-same a a' strings db now h = rw (strings, db, now) h

  pub cache_post-IsRight :
      (post : PostOut) (a : App b)
      → Entry a.db post.id post
      → IsRight a
      → IsRight (cache_post b j author_of post a)
  unfolding cache_post post_cache_ttl
  cache_post-IsRight post a entry h pid u blob later e = elim (Bool-cases (pid == post.id)) [
    | inl same ↦
        let q : pid ≡ post.id = ground arith in
        let written = kept (ltb u (a.now / 1000 + 1000 * post_cache_ttl)) (j.dumps post) blob (
          sym (
            b.strings.get_set a.strings (a.now / 1000) (Keys.post_cache post.id) (j.dumps post)
              (1000 * post_cache_ttl) u later)
          ∙ ap (λ k. b.strings.get (cache_post b j author_of post a).strings u (Keys.post_cache k))
              (sym q)
          ∙ e) in
        (
          post,
          ap j.loads (sym written) ∙ j.loads_dumps post,
          subst (λ k. Entry a.db k post) (sym q) entry,
        )
    | inr other ↦ h pid u blob later (
        sym (
          b.strings.set_other a.strings (a.now / 1000) (Keys.post_cache post.id) (j.dumps post)
            (some (1000 * post_cache_ttl)) u (Keys.post_cache pid) later
            (post_cache-ne pid post.id (λ q. ground arith)))
        ∙ e)
  ]

  -- What reading the cache gives: right posts, and all ids that are without one as misses.
  abbrev pub Hit : List ℕ → App b → Type 0
  Hit ids a =
      (result : Posts) × (misses : List ℕ) × (read_cached b j author_of ids a
        ≡ some (result, misses))
      × AllPosts (Entry a.db) result
      × ((x : ℕ) → among x ids ≡ true → lookup x result ≡ none → among x misses ≡ true)

  read_blob-Hit :
      (pid : ℕ) (ids : List ℕ) (a : App b) (blob : Text)
      → IsRight a
      → b.strings.get a.strings (a.now / 1000) (Keys.post_cache pid) ≡ some blob
      → Hit ids a
      → Hit (pid ∷ ids) a
  unfolding read_cached lookup among
  read_blob-Hit pid ids a [] right got (result, misses, e, entries, missed) = (
    result,
    pid ∷ misses,
    rw (e, got, read_cached) refl,
    entries,
    λ x there absent. ground (arith, missed x),
  )
  read_blob-Hit pid ids a (c ∷ s) right got (result, misses, e, entries, missed) =
      let (post, loaded, entry) = right pid (a.now / 1000) (c ∷ s) (omega arith) got in
      (
        (pid, post) ∷ result,
        misses,
        rw (e, got, loaded, read_cached) refl,
        (entry, entries),
        λ x there absent.
            let (other, rest) = lookup-none x pid post result absent in
            missed x (ground arith) rest,
      )

  pub read_cached_lem : (ids : List ℕ) (a : App b) → IsRight a → Hit ids a
  unfolding read_cached lookup among
  read_cached_lem [] a right = ([], [], refl, tt, λ x there absent. there)
  read_cached_lem (pid ∷ ids) a right =
      let found = read_cached_lem ids a right in
      elim (Option-cases (b.strings.get a.strings (a.now / 1000) (Keys.post_cache pid))) [
        | inl missing ↦
            let (result, misses, e, entries, missed) = found in
            (
              result,
              pid ∷ misses,
              rw (e, missing, read_cached) refl,
              entries,
              λ x there absent. ground (arith, missed x),
            )
        | inr (blob, got) ↦ read_blob-Hit pid ids a blob right got found
      ]
