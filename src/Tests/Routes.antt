-- ===== src/Tests/Routes.antt =====
-- Requests to a sample site that has a post.
use redis_project.Base.{ℕ, ◌≡◌, refl, inl, Option, none, some, [], Text, codes, text_eq}
use redis_project.Api.{Site, Web, ok, bearer_token, strip, user_of_token, current_user_id}
use redis_project.Api.Feed.{author_of, create_post, get_post, home_feed, trending}
use redis_project.Api.Feed.Created.{created_lem}
use redis_project.Services.Hydrate.Shown.{counted}
use redis_project.Api.Feed.Found.{IsReady, found, feed_posts, found_lem}
use redis_project.Api.Feed.Ranked.{ranked_rows}
use redis_project.Backend.{App}
use redis_project.Keys
use redis_project.Services.Accounts.{User}
use redis_project.Services.Hydrate.{PostOut, cache_post, post_out}
use redis_project.Services.Hydrate.Entries.{IsRight, cache_post-IsRight}
use redis_project.Services.Trending.{get_trending}
use redis_project.Sessions.{get_session}
use redis_project.Tests.Api
use redis_project.Tests.Follow.{with_tables, nobody}
use redis_project.Tests.Hydrate.{json, row}
use redis_project.Tests.Social.{nobody-IsFaithful}
use redis_project.Tests.Tables.{post_table, social}

-- Every token is a JWT of user 7.
abbrev site : Site
site = record Api.site {
  backend = with_tables;
  jwt = record { decode = λ now token. some (some 7) };
}

abbrev no_user : site.users.Db → ℕ → Option User
no_user users id = none

abbrev cached : PostOut
cached = post_out with_tables json (author_of site json no_user []) nobody.db row

abbrev stores : App with_tables
stores = cache_post with_tables json (author_of site json no_user []) cached nobody

abbrev web : Web site
web = record {
  app = stores;
  sessions = Api.nobody.sessions;
  lists = Api.nobody.lists;
  viewers = Api.nobody.viewers;
  users = [];
}

nobody-IsRight : IsRight with_tables json (author_of site json no_user []) nobody
nobody-IsRight pid u blob later e = absurd (cc e)

web-IsReady : IsReady site json no_user post_table web
unfolding cache_post post_out
web-IsReady =
    let h = nobody-IsFaithful.reflected in
    record {
      right =
          cache_post-IsRight with_tables json (author_of site json no_user []) cached nobody
            (row, refl, inl refl) nobody-IsRight;
      reflected = record {
        likers = h.likers;
        like_count = h.like_count;
        comment_count = h.comment_count;
      };
    }

abbrev header : Option Text
header = some (codes "Bearer x")

found_lem_example :
    ((post_id : ℕ)
      → (get_post site json no_user post_id header web).0
        ≡ found site json no_user post_table header 7 web post_id)
    × ((limit : ℕ) (before_ts : Option ℕ)
        → (home_feed site json no_user limit before_ts header web).0
          ≡ ok (feed_posts site json no_user post_table 7 limit before_ts web.users web.app))
    × ((limit : ℕ)
        → (trending site json no_user limit web).0
          ≡ ok (
              ranked_rows with_tables json
                (author_of site json no_user web.users)
                web.app.db
                (get_trending with_tables limit web.app)))
unfolding current_user_id bearer_token user_of_token strip text_eq Keys.lower get_session
found_lem_example = found_lem site json no_user post_table header 7 web refl web-IsReady

-- User 7 posts.
created_lem_example :
    let (post, db) = with_tables.database.insert_post web.app.db 7 (codes "hi") in
    let (reply, w') = create_post site json no_user (codes "hi") header web in
    (reply ≡ ok (counted with_tables json (author_of site json no_user web.users) db post.id post))
    × (w'.app.db ≡ db)
    × IsReady site json no_user post_table w'
unfolding current_user_id bearer_token user_of_token strip text_eq Keys.lower get_session
created_lem_example =
    created_lem site json no_user post_table social 7 (codes "hi") header web refl web-IsReady
