-- ===== src/Tests/Posts.antt =====
-- A new post on the sample servers.
use redis_project.Base.{ℕ, ◌+◌, ◌/◌, ◌≤◌, ◌<◌, ◌≡◌, true, false, some, Text, codes}
use redis_project.Backend.{fanout_post}
use redis_project.Database.{Post}
use redis_project.Feed.{is_celebrity}
use redis_project.Keys
use redis_project.Services.Notify.Delivery.{Newest}
use redis_project.Services.Posts.{create_post}
use redis_project.Services.Posts.Written.{create_post_lem}
use redis_project.Tests.Backend.{backend, empty_app}

abbrev post_json : backend.database.Db → Post → Text
post_json db post = post.content

create_post_lem_example :
    let a = empty_app in
    let (post, a') = create_post backend post_json 3 (codes "hello") a in
    let celebrity = is_celebrity (backend.counters.value a.counters (Keys.user_follower_count 3)) in
    ((post, a'.db) ≡ backend.database.insert_post a.db 3 (codes "hello"))
    × ((u : ℕ)
        → a.now / 1000 ≤ u
        → u < a.now / 1000 + 600000
        → backend.strings.get a'.strings u (Keys.post_cache post.id) ≡ some (post_json a'.db post))
    × (celebrity ≡ true → a'.streams ≡ a.streams)
    × (celebrity ≡ false
        → (id : Text) × Newest
            (backend.streams.entries a'.streams Keys.stream_fanout)
            id
            (backend.jobs.dumps (fanout_post post.id 3 post.created_at)))
    × (a'.counters ≡ a.counters)
    × (a'.sets ≡ a.sets)
    × (a'.published ≡ a.published)
create_post_lem_example = create_post_lem backend post_json 3 (codes "hello") empty_app
