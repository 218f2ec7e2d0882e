-- ===== src/Tests/Likes.antt =====
-- A like on the sample servers.
use redis_project.Base.{ℕ, ◌≡◌, refl, true, ◌&&◌, ◌||◌, some, [], codes, ◌==◌, if◌then◌else◌}
use redis_project.Backend.{App}
use redis_project.Database.{Post}
use redis_project.Keys
use redis_project.Redis.Counters.{plus_one}
use redis_project.Services.Graph.{holds, count_at}
use redis_project.Services.Likes.{like_post}
use redis_project.Services.Likes.Counted.{like_post_lem}
use redis_project.Tests.Backend.{backend, empty_app}

abbrev post : Post
post = record { id = 1; author_id = 9; content = []; created_at = 5 }

like_post_lem_example :
    let user_id : ℕ = 3 in
    let post_id : ℕ = 1 in
    let a = empty_app in
    (a' : App backend) × (like_post backend user_id post_id (codes "t") a ≡ some (true, a'))
    × (a'.db ≡ a.db)
    × ((x : ℕ)
        → count_at Keys.post_like_count backend.counters a'.counters x ≡ (
            if x == post_id
            then plus_one (count_at Keys.post_like_count backend.counters a.counters x)
            else count_at Keys.post_like_count backend.counters a.counters x))
    × ((x y : ℕ)
        → holds Keys.post_likers backend.sets a'.sets x y
          ≡ ((x == post_id && y == user_id) || holds Keys.post_likers backend.sets a.sets x y))
like_post_lem_example = like_post_lem backend 3 1 (codes "t") empty_app post empty_app.db refl refl
