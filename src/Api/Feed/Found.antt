-- ===== src/Api/Feed/Found.antt =====
-- What the routes that hydrate posts answer, against the tables.
use redis_project.Base.{
  ℕ, ◌≡◌, refl, ap, ◌∙◌, inl, inr, Option, none, some, List, [], ◌∷◌, map, Text, codes,
  Option-cases,
}
use redis_project.Api.{
  Site, Web, Reply, ok, http_exception, crashed, bearer_token, user_of_token, stamp_active,
  current_user_id, depending, with_user,
}
use redis_project.Api.Feed.{
  author_of, hydrate, post_reply, get_post, posts_reply, home_feed, trending_reply, trending,
}
use redis_project.Api.Feed.Ranked.{ranked_rows, ranked-by_id}
use redis_project.Backend.{App}
use redis_project.Database.{Post}
use redis_project.Database.Tables.{PostTable}
use redis_project.Feed.{home_feed_ids, feed_max_size}
use redis_project.Services.Accounts.{User}
use redis_project.Services.Hydrate.{PostJson, PostOut}
use redis_project.Services.Hydrate.Entries.{IsRight}
use redis_project.Services.Hydrate.Shown.{counted, shown, hydrate_posts_lem}
use redis_project.Services.Social.Reactions.{IsReflected}
use redis_project.Services.Trending.{get_trending}

module _ (p : Site) where
  stamp_active-app :
      (user : Reply ℕ) (w : Web p)
      → ((stamp_active p user w).app ≡ w.app) × ((stamp_active p user w).users ≡ w.users)
  unfolding stamp_active
  stamp_active-app (ok user_id) w = (refl, refl)
  stamp_active-app (http_exception status detail) w = (refl, refl)
  stamp_active-app crashed w = (refl, refl)

  -- Finding the user changes nothing that hydrating reads.
  pub current_user_id-app :
      (authorization : Option Text) (w : Web p)
      → ((current_user_id p authorization w).1.app ≡ w.app)
        × ((current_user_id p authorization w).1.users ≡ w.users)
  unfolding current_user_id stamp_active
  current_user_id-app authorization w = elim (Option-cases (bearer_token authorization)) [
    | inl missing ↦ rw (missing, current_user_id) (refl, refl)
    | inr (token, found) ↦
        rw (found, current_user_id) (stamp_active-app (user_of_token p w token) w)
  ]

  module _ (j : PostJson) (get_user : p.users.Db → ℕ → Option User)
      (table : PostTable p.backend.database) where
    -- A row of the table with its author, and its counts.
    abbrev pub row_out : Web p → ℕ → Post → PostOut
    row_out w pid row = counted p.backend j (author_of p j get_user w.users) w.app.db pid row

    -- What is cached is right, and the counters of reactions are those of the tables.
    pub record IsReady (w : Web p) : Type 0 where
      pub right : IsRight p.backend j (author_of p j get_user w.users) w.app
      pub reflected : IsReflected p.backend w.app

    hydrate_lem :
        (post_ids : List ℕ) (w : Web p)
        → IsReady w
        → (w' : Web p) × (hydrate p j get_user post_ids w
            ≡ some (shown p.backend j (author_of p j get_user w.users) w.app.db post_ids, w'))
    unfolding hydrate
    hydrate_lem post_ids w h =
        let (app, e, right, db, sets, counters) =
          hydrate_posts_lem p.backend j (author_of p j get_user w.users) table post_ids w.app
            h.right h.reflected in
        (record w { app = app }, rw (e, hydrate) refl)

    -- Timelines are not read by hydrating.
    IsReady-zsets :
        (w : Web p) (zsets : p.backend.zsets.Server)
        → IsReady w
        → IsReady (record w { app = record w.app { zsets = zsets } })
    IsReady-zsets w zsets h = record {
      right = h.right;
      reflected = record {
        likers = h.reflected.likers;
        like_count = h.reflected.like_count;
        comment_count = h.reflected.comment_count;
      };
    }

    -- The posts of the home feed on the stores.
    abbrev pub feed_posts : ℕ → ℕ → Option ℕ → p.users.Db → App p.backend → List PostOut
    feed_posts user_id limit before_ts users a =
        shown p.backend j (author_of p j get_user users) a.db
          (home_feed_ids p.backend.zsets p.backend.counters p.backend.sets a.zsets a.counters a.sets
            (p.backend.database.recent_posts a.db feed_max_size) user_id limit before_ts).0

    module _ (authorization : Option Text) (user_id : ℕ) (w : Web p) where
      -- What a route answers to the user is what it answers on any state with the same stores.
      with_user-reply :
          {A : Type 0} (route : ℕ → Web p → Reply A × Web p) (x : Reply A)
          → (current_user_id p authorization w).0 ≡ ok user_id
          → ((w' : Web p) → w'.app ≡ w.app → w'.users ≡ w.users → (route user_id w').0 ≡ x)
          → (with_user p authorization route w).0 ≡ x
      unfolding with_user depending
      with_user-reply route x known h =
          let (app, users) = current_user_id-app authorization w in
          rw (known, with_user, depending) (h (current_user_id p authorization w).1 app users)

      pub IsReady-same : (w' : Web p) → w'.app ≡ w.app → w'.users ≡ w.users → IsReady w → IsReady w'
      IsReady-same w' app users h = record {
        right = rw (app, users) h.right;
        reflected = rw app h.reflected;
      }

      hydrate-same :
          (post_ids : List ℕ) (w' : Web p)
          → w'.app ≡ w.app
          → w'.users ≡ w.users
          → IsReady w
          → (w'' : Web p) × (hydrate p j get_user post_ids w'
              ≡ some (shown p.backend j (author_of p j get_user w.users) w.app.db post_ids, w''))
      hydrate-same post_ids w' app users h =
          let (w'', e) = hydrate_lem post_ids w' (IsReady-same w' app users h) in
          (
            w'',
            e
                ∙ ap
                    (λ u.
                      some (shown p.backend j (author_of p j get_user u) w'.app.db post_ids, w''))
                    users
                ∙ ap
                    (λ (a : App p.backend).
                      some (shown p.backend j (author_of p j get_user w.users) a.db post_ids, w''))
                    app,
          )

      -- The answer to a request for one post.
      abbrev pub found : ℕ → Reply PostOut
      found post_id = elim (p.backend.database.get_post w.app.db post_id) [
        | none ↦ http_exception 404 (codes "post not found")
        | some row ↦ ok (row_out w post_id row)
      ]

      post_reply-found :
          (post_id : ℕ) (w' w'' : Web p)
          → (post_reply p j get_user post_id user_id
              (some
                (shown p.backend j (author_of p j get_user w.users) w.app.db (post_id ∷ []), w''))
              w').0
            ≡ found post_id
      unfolding post_reply shown
      post_reply-found post_id w' w'' =
          elim (Option-cases (p.backend.database.get_post w.app.db post_id)) [
            | inl missing ↦ rw (missing, shown, post_reply, found) refl
            | inr (row, held) ↦ rw (held, shown, post_reply, found) refl
          ]

      -- What a known user gets from the routes that hydrate posts, where whatever is cached of a
      -- post is the table's row, its author perhaps missing, and the counters of reactions equal the
      -- tables: a post that is asked for is answered with its row, author and counts, or with status
      -- 404 exactly if it is not in the table; the home feed shows, in their order, the rows of the
      -- ids that the feed's merge gives; and trending shows the trending ids whose rows are there,
      -- in their order, with their scores. No cached post makes any of them fail.
      pub found_lem :
          (current_user_id p authorization w).0 ≡ ok user_id
          → IsReady w
          → ((post_id : ℕ) → (get_post p j get_user post_id authorization w).0 ≡ found post_id)
            × ((limit : ℕ) (before_ts : Option ℕ)
                → (home_feed p j get_user limit before_ts authorization w).0
                  ≡ ok (feed_posts user_id limit before_ts w.users w.app))
            × ((limit : ℕ)
                → (trending p j get_user limit w).0
                  ≡ ok (
                      ranked_rows p.backend j
                        (author_of p j get_user w.users)
                        w.app.db
                        (get_trending p.backend limit w.app)))
      unfolding get_post home_feed trending posts_reply trending_reply
      found_lem known ready = (
        λ post_id. with_user-reply _ (found post_id) known (λ w' app users.
            let (w'', e) = hydrate-same (post_id ∷ []) w' app users ready in
            rw e (post_reply-found post_id w' w'')),
        λ limit before_ts.
            with_user-reply _ (ok (feed_posts user_id limit before_ts w.users w.app)) known
              (λ w' app users.
                let feed =
                  home_feed_ids p.backend.zsets p.backend.counters p.backend.sets w'.app.zsets
                    w'.app.counters w'.app.sets
                    (p.backend.database.recent_posts w'.app.db feed_max_size) user_id limit
                    before_ts in
                let (w'', e) =
                  hydrate_lem feed.0 (record w' { app = record w'.app { zsets = feed.1 } })
                    (IsReady-zsets w' feed.1 (IsReady-same w' app users ready)) in
                rw (e, posts_reply)
                  (ap (λ u. ok (feed_posts user_id limit before_ts u w'.app)) users
                    ∙ ap (λ a. ok (feed_posts user_id limit before_ts w.users a)) app)),
        λ limit.
            let top = get_trending p.backend limit w.app in
            let (w'', e) = hydrate_lem (map (λ (e : ℕ × ℕ). e.0) top) w ready in
            rw (e, trending_reply)
              (ap ok
                (ranked-by_id p.backend j (author_of p j get_user w.users) w.app.db table top)),
      )
