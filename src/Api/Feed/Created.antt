-- ===== src/Api/Feed/Created.antt =====
-- What `create_post` of app/api/posts.py answers and leaves.
use redis_project.Base.{ℕ, ◌≡◌, refl, ap, ◌∙◌, inl, Option, some, [], ◌∷◌, Text, codes}
use mathlib.Core.Path.{subst}
use redis_project.Api.{Site, Web, Reply, ok, current_user_id, depending, with_user}
use redis_project.Api.Feed.{author_of, hydrate, created_reply, create_post}
use redis_project.Api.Feed.Found.{IsReady, IsReady-same, current_user_id-app}
use redis_project.Api.Users.{target, log_activity}
use redis_project.Backend.{Backend, App}
use redis_project.Database.{Post}
use redis_project.Database.Tables.{PostTable, SocialTables}
use redis_project.Services.Accounts.{User}
use redis_project.Services.Hydrate.{PostJson, PostOut, post_out, cache_post}
use redis_project.Services.Hydrate.Entries.{IsRight, cache_post-IsRight, IsRight-same}
use redis_project.Services.Hydrate.Shown.{counted, shown, hydrate_posts_lem}
use redis_project.Services.Posts
use redis_project.Services.Posts.Written.{create_post_lem, create_post-strings}
use redis_project.Services.Social.Kept.{ReactionsKept-else, same_reactions}
use redis_project.Services.Social.Reactions.{IsReflected, IsReflected-kept}

module _ (p : Site) (j : PostJson) (get_user : p.users.Db → ℕ → Option User)
    (table : PostTable p.backend.database) (tables : SocialTables p.backend.database)
    (users : p.users.Db) (user_id : ℕ) (content : Text) (a : App p.backend) where
  abbrev b : Backend
  b = p.backend

  abbrev post_json : b.database.Db → Post → Text
  post_json db post = j.dumps (post_out b j (author_of p j get_user users) db post)

  -- The service's call, with the JSON that the route gives it.
  abbrev created : Post × App b
  created = Posts.create_post b post_json user_id content a

  abbrev inserted : Post × b.database.Db
  inserted = b.database.insert_post a.db user_id content

  created-db : created.1.db ≡ inserted.1
  unfolding Posts.create_post
  created-db =
      let (row, cached, famous, sent, counters, sets, published) =
        create_post_lem b post_json user_id content a in
      ap (λ (r : Post × b.database.Db). r.1) row

  -- The new row takes nothing from what is cached of the others.
  inserted-IsRight :
      IsRight b j (author_of p j get_user users) a
      → IsRight b j (author_of p j get_user users) (record a { db = inserted.1 })
  unfolding post_out author_of
  inserted-IsRight right pid u blob later e =
      let (post, loaded, (row, held, same)) = right pid u blob later e in
      (post, loaded, (row, table.insert_post_other a.db user_id content pid row held, same))

  created-IsRight :
      IsRight b j (author_of p j get_user users) a
      → IsRight b j (author_of p j get_user users) created.1
  unfolding Posts.create_post post_out cache_post
  created-IsRight right =
      let (strings, now) = create_post-strings b post_json user_id content a in
      let a1 = record a { db = inserted.1 } in
      let out = post_out b j (author_of p j get_user users) inserted.1 inserted.0 in
      IsRight-same b j (author_of p j get_user users)
        (cache_post b j (author_of p j get_user users) out a1) created.1 strings created-db now
        (cache_post-IsRight b j (author_of p j get_user users) out a1
          (inserted.0, table.insert_post_found a.db user_id content, inl refl)
          (inserted-IsRight right))

  created-IsReflected : IsReflected b a → IsReflected b created.1
  created-IsReflected =
      let (row, cached, famous, sent, counters, sets, published) =
        create_post_lem b post_json user_id content a in
      IsReflected-kept b a created.1 (
        ReactionsKept-else b a created.1
          (rw created-db (tables.insert_post_same a.db user_id content).1) sets counters)

-- The answer to a new post, and a state that is ready again.
module _ (p : Site) (j : PostJson) (get_user : p.users.Db → ℕ → Option User)
    (table : PostTable p.backend.database) (tables : SocialTables p.backend.database) (user_id : ℕ)
    (content : Text) where
  abbrev Answered : p.users.Db → App p.backend → Reply PostOut × Web p → Type 0
  Answered users a (reply, w') =
      let (post, db) = p.backend.database.insert_post a.db user_id content in
      (reply ≡ ok (counted p.backend j (author_of p j get_user users) db post.id post))
      × (w'.app.db ≡ db)
      × IsReady p j get_user table w'

  -- The route once its user is known.
  abbrev route : Web p → Reply PostOut × Web p
  route w =
      let (post, app) = created p j get_user table tables w.users user_id content w.app in
      let w' =
        log_activity p user_id (codes "post") (target (codes "post") post.id)
          (record w { app = app }) in
      created_reply p j get_user post (hydrate p j get_user (post.id ∷ []) w') w'

  created_reply-Answered :
      (w w' : Web p) (db : p.backend.database.Db)
      → let (post, e) = p.backend.database.insert_post w.app.db user_id content in
        db ≡ e
        → w'.app.db ≡ e
        → IsReady p j get_user table w'
        → (w'' : Web p)
        → Answered w.users w.app (
            created_reply p j get_user post
              (some (shown p.backend j (author_of p j get_user w.users) db (post.id ∷ []), w'))
              w'')
  unfolding created_reply shown
  created_reply-Answered w w' db same kept ready w'' =
      let b = p.backend in
      let post = (b.database.insert_post w.app.db user_id content).0 in
      let held : b.database.get_post db post.id ≡ some post =
        ap (λ d. b.database.get_post d post.id) same
        ∙ table.insert_post_found w.app.db user_id content in
      rw (held, created_reply, shown)
        (
          ap (λ d. ok (counted b j (author_of p j get_user w.users) d post.id post)) same,
          kept,
          ready,
        )

  route-Answered : (w : Web p) → IsReady p j get_user table w → Answered w.users w.app (route w)
  unfolding hydrate log_activity Posts.create_post
  route-Answered w ready =
      let b = p.backend in
      let ao = author_of p j get_user w.users in
      let (post, app) = created p j get_user table tables w.users user_id content w.app in
      let same = created-db p j get_user table tables w.users user_id content w.app in
      let reflected =
        created-IsReflected p j get_user table tables w.users user_id content w.app
          ready.reflected in
      let (app', e, right, db, sets, counters) =
        hydrate_posts_lem b j ao table (post.id ∷ []) app
          (created-IsRight p j get_user table tables w.users user_id content w.app ready.right)
          reflected in
      let w' =
        log_activity p user_id (codes "post") (target (codes "post") post.id)
          (record w { app = app }) in
      rw (e, hydrate)
        (created_reply-Answered w (record w' { app = app' }) app.db same (db ∙ same)
          (record {
            right = right;
            reflected =
                IsReflected-kept b app app'
                  (ReactionsKept-else b app app' (rw db (same_reactions b app.db)) sets counters)
                  reflected;
          })
          w')

  -- Who is known and posts, where whatever is cached of a post is the table's row, its author
  -- perhaps missing, and the counters of reactions equal the tables, is answered with the new row,
  -- its author and the counts that the tables have for it; the row stands in the table, and in the
  -- state that is left, cached posts and counters are right again.
  pub created_lem :
      (authorization : Option Text) (w : Web p)
      → (current_user_id p authorization w).0 ≡ ok user_id
      → IsReady p j get_user table w
      → let (post, db) = p.backend.database.insert_post w.app.db user_id content in
        let (reply, w') = create_post p j get_user content authorization w in
        (reply ≡ ok (counted p.backend j (author_of p j get_user w.users) db post.id post))
        × (w'.app.db ≡ db)
        × IsReady p j get_user table w'
  unfolding create_post with_user depending
  created_lem authorization w known ready =
      let (app, users) = current_user_id-app p authorization w in
      let w' = (current_user_id p authorization w).1 in
      let done =
        route-Answered w'
          (IsReady-same p j get_user table authorization user_id w w' app users ready) in
      rw (known, create_post, with_user, depending)
        (subst (λ x. Answered w.users x (route w')) app
          (subst (λ u. Answered u w'.app (route w')) users done))
