-- ===== src/Tests/Trending.antt =====
-- Pruning on the sample servers.
use redis_project.Base.{ℕ, ◌<◌, [], ◌∷◌, arith}
use redis_project.Base.Int.{pos}
use redis_project.Services.Likes.{record_post_created}
use redis_project.Services.Trending.Pruned.{kept, prunings, prunings-record_post_created}
use redis_project.Tests.Backend.{backend, empty_app}

prunings-record_post_created_example :
    let created_at : ℕ = 5 in
    0
    < kept backend 1 3
        (backend.trending_score created_at (pos 0) empty_app.now)
        (prunings backend 3 (7 ∷ 9 ∷ []) (record_post_created backend 1 created_at empty_app))
prunings-record_post_created_example =
    prunings-record_post_created backend 1 3 5 empty_app (omega arith) (7 ∷ 9 ∷ [])
