-- ===== src/Tests/Workers.antt =====
-- The jobs of the fan-out worker on sample servers.
use redis_project.Base.{ℕ, ◌≡◌, ◌≢◌, refl, true, false, List, [], ◌∷◌, Text, text_eq, arith}
use redis_project.Backend.{fanout_post}
use redis_project.Feed.Trim.{Pushed}
use redis_project.Keys
use redis_project.Keys.Decimal.{decimal}
use redis_project.Services.Follow.{follow, announce, link}
use redis_project.Services.Notify.{emit_notification, publish_job, store_event, publish_event}
use redis_project.Services.Workers.Reached.{handle_fanout_lem}
use redis_project.Tests.Follow.{with_tables, followed}
use redis_project.Tests.Social.{followed-IsFaithful}
use redis_project.Tests.Rows.{has}
use redis_project.Tests.Tables.{tables, social}
use redis_project.Feed.{fanout_post_to_followers}
use redis_project.Services.Workers.{fanout_batches, handle_fanout}
use redis_project.Services.Workers.Batches.{fanout_batches_lem}
use redis_project.Tests.Zsets.{no_zsets, sample}

fanout_batches_lem_example :
    fanout_batches sample 3 10 100 (1 ∷ 4 ∷ 5 ∷ []) no_zsets
    ≡ fanout_post_to_followers sample no_zsets 10 100 (1 ∷ 4 ∷ 5 ∷ [])
fanout_batches_lem_example =
    fanout_batches_lem sample 10 100 3 (1 ∷ 4 ∷ 5 ∷ []) no_zsets (omega arith)

program : Unit {0}
unfolding follow announce link emit_notification publish_job store_event publish_event has decimal
    text_eq Keys.user_followers Keys.user_following
program = tt

-- User 1 follows user 2.
abbrev everyone : List Text → ℕ → List Text
everyone members limit = members

handle_fanout_lem_example :
    let a' = handle_fanout with_tables everyone (fanout_post 10 2 100) followed in
    ((x : ℕ)
      → tables.follows followed.db x 2 ≡ true
      → Pushed 10 100
          (sample.rows followed.zsets (Keys.home_feed x))
          (sample.rows a'.zsets (Keys.home_feed x)))
    × ((x : ℕ)
        → tables.follows followed.db x 2 ≡ false
        → sample.rows a'.zsets (Keys.home_feed x) ≡ sample.rows followed.zsets (Keys.home_feed x))
    × ((key : Text)
        → ((x : ℕ) → key ≢ Keys.home_feed x)
        → sample.rows a'.zsets key ≡ sample.rows followed.zsets key)
unfolding program
handle_fanout_lem_example =
    handle_fanout_lem with_tables social everyone followed 2 10 100 (λ members limit few p. refl)
      (λ m. ground arith) (omega arith) followed-IsFaithful
