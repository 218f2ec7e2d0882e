-- ===== src/Services/Hydrate.antt =====
-- `hydrate_posts` of app/services/feed_service.py. A dict of posts is a list of posts with their ids,
-- the one that was put last in front.
use redis_project.Base.{
  ℕ, ◌*◌, ◌/◌, ◌≡◌, Option, none, some, List, [], ◌∷◌, Text, ◌==◌, leb, if◌then◌else◌,
}
use redis_project.Backend.{Backend, App}
use redis_project.Base.Int.{ℤ, pos, negsuc}
use redis_project.Database.{Post}
use redis_project.Keys
use redis_project.Redis.Counters.{or_zero}
use redis_project.Services.Accounts.{UserPublic}
use redis_project.Services.Posts.{post_cache_ttl}
pub mod Entries
pub mod Filled
pub mod Shown

pub record PostOut : Type 0 where
  pub id : ℕ
  pub author_id : ℕ
  pub author : Option UserPublic
  pub content : Text
  pub created_at : ℕ
  pub like_count : ℕ
  pub comment_count : ℕ

-- A post as JSON by pydantic, `model_dump_json` and `model_validate_json`, which raises on what is
-- no post.
pub record PostJson : Type 0 where
  pub dumps : PostOut → Text
  pub loads : Text → Option PostOut
  pub loads_dumps : (post : PostOut) → loads (dumps post) ≡ some post

abbrev pub Posts : Type 0
Posts = List (ℕ × PostOut)

-- `result.get(pid)`
unfoldable pub lookup : ℕ → Posts → Option PostOut
lookup pid [] = none
lookup pid ((id, post) ∷ posts) =
    let rest = lookup pid posts in if id == pid then some post else rest

-- `max(count, live)`, where the count is not negative.
unfoldable pub at_least : ℕ → ℤ → ℕ
at_least count (pos live) = if leb live count then count else live
at_least count (negsuc live) = count

module _ (b : Backend) (j : PostJson) (author_of : b.database.Db → ℕ → Option UserPublic) where
  -- `_post_out`; `author_of` reads the table of users. The two columns of counts, which no code
  -- writes, hold their default, 0.
  unfoldable pub post_out : b.database.Db → Post → PostOut
  post_out db post = record {
    id = post.id;
    author_id = post.author_id;
    author = author_of db post.author_id;
    content = post.content;
    created_at = post.created_at;
    like_count = 0;
    comment_count = 0;
  }

  -- `SET K.post_cache(id) … EX POST_CACHE_TTL`
  unfoldable pub cache_post : PostOut → App b → App b
  unfolding post_cache_ttl
  cache_post post a = record a {
    strings =
        b.strings.set a.strings (a.now / 1000) (Keys.post_cache post.id) (j.dumps post)
          (some (1000 * post_cache_ttl));
  }

  -- The posts that are cached, and the ids that are not; `none` is the exception for a text that
  -- is no post.
  unfoldable pub read_cached : List ℕ → App b → Option (Posts × List ℕ)
  read_cached [] a = some ([], [])
  read_cached (pid ∷ post_ids) a =
      let rest = read_cached post_ids a in
      elim rest [
        | none ↦ none
        | some (result, misses) ↦
            elim (b.strings.get a.strings (a.now / 1000) (Keys.post_cache pid)) [
              | none ↦ some (result, pid ∷ misses)
              | some [] ↦ some (result, pid ∷ misses)
              | some (c ∷ blob) ↦ elim (j.loads (c ∷ blob)) [
                | none ↦ none
                | some post ↦ some ((pid, post) ∷ result, misses)
              ]
            ]
      ]

  -- The missing posts that the table has. An id that is missing twice is read twice here, to the
  -- same post.
  unfoldable pub load_misses : List ℕ → Posts → App b → Posts × App b
  unfolding post_out cache_post
  load_misses [] result a = (result, a)
  load_misses (pid ∷ misses) result a =
      let rest = load_misses misses result a in
      elim (b.database.get_post a.db pid) [
        | none ↦ rest
        | some post ↦
            let out = post_out a.db post in ((post.id, out) ∷ rest.0, cache_post out rest.1)
      ]

  -- The posts without an author get it from the table, and are cached once more.
  unfoldable pub fill_authors : Posts → App b → Posts × App b
  unfolding cache_post
  fill_authors [] a = ([], a)
  fill_authors ((pid, post) ∷ posts) a =
      let (rest, a') = fill_authors posts a in
      elim post.author [
        | some author ↦ ((pid, post) ∷ rest, a')
        | none ↦
            let filled = record post { author = author_of a.db post.author_id } in
            ((pid, filled) ∷ rest, cache_post filled a')
      ]

  -- The live counters over those of the post.
  unfoldable pub overlay : ℕ → PostOut → App b → PostOut
  unfolding at_least
  overlay pid post a = record post {
    like_count =
        at_least post.like_count (or_zero (b.counters.value a.counters (Keys.post_like_count pid)));
    comment_count =
        at_least post.comment_count
          (or_zero (b.counters.value a.counters (Keys.post_comment_count pid)));
  }

  -- `[result[pid] for pid in post_ids if pid in result]`
  unfoldable pub in_order : List ℕ → Posts → App b → List PostOut
  unfolding lookup overlay
  in_order [] result a = []
  in_order (pid ∷ post_ids) result a =
      let rest = in_order post_ids result a in
      elim (lookup pid result) [ none ↦ rest | some post ↦ overlay pid post a ∷ rest ]

  unfoldable pub hydrate_posts : List ℕ → App b → Option (List PostOut × App b)
  unfolding read_cached load_misses fill_authors in_order
  hydrate_posts post_ids a = elim (read_cached post_ids a) [
    | none ↦ none
    | some (cached, misses) ↦
        let (loaded, a1) = load_misses misses cached a in
        let (result, a2) = fill_authors loaded a1 in some (in_order post_ids result a2, a2)
  ]
