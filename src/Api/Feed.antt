-- ===== src/Api/Feed.antt =====
-- The routes that hydrate posts: app/api/feed.py, and `create_post` and `get_post` of
-- app/api/posts.py.
use redis_project.Base.{ℕ, Option, none, some, List, [], ◌∷◌, map, Text, codes}
use mathlib.Core.Option
use redis_project.Activity.Daily.{record_post_view}
use redis_project.Api.{Site, Web, Reply, ok, http_exception, crashed, with_user}
use redis_project.Api.Users.{target, log_activity}
use redis_project.Database.{Post}
use redis_project.Feed.{home_feed_ids, feed_max_size}
use redis_project.Services.Accounts.{User, UserPublic, to_public}
use redis_project.Services.Hydrate
use redis_project.Services.Hydrate.{PostJson, PostOut, lookup}
use redis_project.Services.Posts
use redis_project.Services.Trending.{get_trending}
pub mod Ranked
pub mod Found
pub mod Created

pub record TrendingPost : Type 0 where
  pub post : PostOut
  pub score : ℕ

-- `{p.id: p for p in …}`, on top of a dict.
unfoldable pub by_id : List PostOut → Hydrate.Posts → Hydrate.Posts
by_id [] posts = posts
by_id (post ∷ hydrated) posts = by_id hydrated ((post.id, post) ∷ posts)

-- The rows whose posts there are.
unfoldable pub ranked : List (ℕ × ℕ) → Hydrate.Posts → List TrendingPost
unfolding lookup
ranked [] posts = []
ranked ((pid, score) ∷ top) posts =
    let rest = ranked top posts in
    elim (lookup pid posts) [
      | none ↦ rest
      | some post ↦ record { post = post; score = score } ∷ rest
    ]

-- The JSON of posts, and `db.get(User, id)`.
module _ (p : Site) (j : PostJson) (get_user : p.users.Db → ℕ → Option User) where
  unfoldable pub author_of : p.users.Db → p.backend.database.Db → ℕ → Option UserPublic
  author_of users db id = Option.map to_public (get_user users id)

  unfoldable pub hydrate : List ℕ → Web p → Option (List PostOut × Web p)
  unfolding author_of
  hydrate post_ids w = elim (Hydrate.hydrate_posts p.backend j (author_of w.users) post_ids w.app) [
    | none ↦ none
    | some (posts, app) ↦ some (posts, record w { app = app })
  ]

  -- The end of `create_post`: `hydrated[0] if hydrated else PostOut.model_validate(post)`. A row
  -- has no author of its own.
  unfoldable pub created_reply :
      Post → Option (List PostOut × Web p) → Web p → Reply PostOut × Web p
  created_reply post none w = (crashed, w)
  created_reply post (some ([], w')) w = (
    ok (record (Hydrate.post_out p.backend j (author_of w'.users) w'.app.db post) {
      author = none;
    }),
    w',
  )
  created_reply post (some (out ∷ posts, w')) w = (ok out, w')

  unfoldable pub create_post : Text → Option Text → Web p → Reply PostOut × Web p
  unfolding hydrate created_reply log_activity target with_user
  create_post content authorization = with_user p authorization (λ user_id w.
      let (post, app) =
        Posts.create_post p.backend
          (λ db post. j.dumps (Hydrate.post_out p.backend j (author_of w.users) db post)) user_id
          content w.app in
      let w' =
        log_activity p user_id (codes "post") (target (codes "post") post.id)
          (record w { app = app }) in
      created_reply post (hydrate (post.id ∷ []) w') w')

  -- A post that is found counts the user as a viewer.
  unfoldable pub post_reply : ℕ → ℕ → Option (List PostOut × Web p) → Web p → Reply PostOut × Web p
  post_reply post_id user_id none w = (crashed, w)
  post_reply post_id user_id (some ([], w')) w = (http_exception 404 (codes "post not found"), w')
  post_reply post_id user_id (some (out ∷ posts, w')) w =
      (ok out, record w' { viewers = record_post_view p.viewers w'.viewers post_id user_id })

  unfoldable pub get_post : ℕ → Option Text → Web p → Reply PostOut × Web p
  unfolding hydrate post_reply with_user
  get_post post_id authorization =
      with_user p authorization
        (λ user_id w. post_reply post_id user_id (hydrate (post_id ∷ []) w) w)

  unfoldable pub posts_reply : Option (List PostOut × Web p) → Web p → Reply (List PostOut) × Web p
  posts_reply none w = (crashed, w)
  posts_reply (some (posts, w')) w = (ok posts, w')

  -- `get_home_feed` behind its route. Where nothing is merged, no post is hydrated.
  unfoldable pub home_feed : ℕ → Option ℕ → Option Text → Web p → Reply (List PostOut) × Web p
  unfolding hydrate posts_reply with_user
  home_feed limit before_ts authorization = with_user p authorization (λ user_id w.
      let b = p.backend in
      let (post_ids, zsets) =
        home_feed_ids b.zsets b.counters b.sets w.app.zsets w.app.counters w.app.sets
          (b.database.recent_posts w.app.db feed_max_size) user_id limit before_ts in
      let w' = record w { app = record w.app { zsets = zsets } } in
      posts_reply (hydrate post_ids w') w')

  unfoldable pub trending_reply :
      List (ℕ × ℕ) → Option (List PostOut × Web p) → Web p → Reply (List TrendingPost) × Web p
  unfolding ranked by_id
  trending_reply top none w = (crashed, w)
  trending_reply top (some (posts, w')) w = (ok (ranked top (by_id posts [])), w')

  -- Where nothing trends, no post is hydrated.
  unfoldable pub trending : ℕ → Web p → Reply (List TrendingPost) × Web p
  unfolding hydrate trending_reply
  trending limit w =
      let top = get_trending p.backend limit w.app in
      trending_reply top (hydrate (map (λ (e : ℕ × ℕ). e.0) top) w) w
