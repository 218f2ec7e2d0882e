-- ===== src/Tests/Feed.antt =====
-- The feeds on the sample servers.
use redis_project.Base.{ℕ, ◌≡◌, refl, none, some, [], ◌∷◌, Text, codes, text_eq, count, map, ◌==◌}
use redis_project.Base.Int.{pos}
use redis_project.Keys
use redis_project.Keys.Decimal.{decimal}
use redis_project.Feed.{
  Scores, feed_max_size, celebrity_follower_threshold, int_of, push_commands, create_commands,
  fanout_commands, lookup, store, from_home, merge_rows, sort_by_score, top_ids, is_celebrity,
  run_command, execute, fanout_post_to_followers, merge_timelines, celebrities, followed_scores,
  merged_scores, home_feed_ids, backfill_global_recent_feed,
}
use redis_project.Feed.Trim.{Pushed}
use redis_project.Feed.Fanout.{fanout_post_to_followers_lem, AllOther}
use redis_project.Feed.Home.{feed_score, home_feed_ids_lem}
use redis_project.Feed.Top.{IsTop}
use redis_project.Tests.Zsets.{Zsets, no_zsets, sample}
use redis_project.Tests.Counters.{
  Counters, no_counters, counter_sample, Members, no_members, member_sample,
}

program : Unit {0}
unfolding home_feed_ids merged_scores followed_scores celebrities merge_timelines merge_rows
    from_home store lookup sort_by_score top_ids is_celebrity execute run_command
    fanout_post_to_followers fanout_commands create_commands push_commands feed_max_size
    celebrity_follower_threshold int_of decimal text_eq backfill_global_recent_feed Keys.home_feed
    Keys.user_posts Keys.global_recent_feed Keys.user_following Keys.user_follower_count
program = tt

-- User 2 posts 10 and 11, and user 3, a celebrity, posts 12; user 1 follows both.
abbrev posted : Zsets
unfolding execute
posted =
    execute sample
      (execute sample (execute sample no_zsets (create_commands 2 10 100))
        (create_commands 2 11 200))
      (create_commands 3 12 150)

abbrev fanned : Zsets
unfolding fanout_post_to_followers
fanned = (fanout_post_to_followers sample posted 10 100 (1 ∷ 4 ∷ [])).1

abbrev counts : Counters
unfolding Keys.user_follower_count text_eq
counts = counter_sample.set no_counters (Keys.user_follower_count 3) (pos 10001)

abbrev following : Members
unfolding Keys.user_following text_eq
following =
    member_sample.sadd (member_sample.sadd no_members (Keys.user_following 1) (codes "2"))
      (Keys.user_following 1) (codes "3")

shown :
    (home_feed_ids sample counter_sample member_sample fanned counts following [] 1 2 none).0
    ≡ 11 ∷ 12 ∷ []
unfolding fanned posted counts following program
shown = refl

shown_before :
    (home_feed_ids sample counter_sample member_sample fanned counts following [] 1 2 (some 150)).0
    ≡ 12 ∷ 10 ∷ []
unfolding fanned posted counts following program
shown_before = refl

home_feed_ids_lem_example :
    (top : Scores) × ((home_feed_ids sample counter_sample member_sample fanned counts following []
        1 2 none).0
      ≡ map (λ (e : ℕ × ℕ). e.0) top)
    × IsTop 2
        (feed_score sample counter_sample member_sample fanned counts following [] 1 2 none)
        top
home_feed_ids_lem_example =
    home_feed_ids_lem sample counter_sample member_sample fanned counts following [] 1 2 none

fanout_post_to_followers_lem_example :
    let (written, s') = fanout_post_to_followers sample posted 10 100 (1 ∷ 4 ∷ []) in
    (written ≡ 2)
    × ((u : ℕ)
        → count (λ f. f == u) (1 ∷ 4 ∷ []) ≡ 1
        → Pushed 10 100 (sample.rows posted (Keys.home_feed u)) (sample.rows s' (Keys.home_feed u)))
    × ((j : Text) → AllOther sample 10 100 j (1 ∷ 4 ∷ []) → sample.rows s' j ≡ sample.rows posted j)
fanout_post_to_followers_lem_example =
    fanout_post_to_followers_lem sample 10 100 posted (1 ∷ 4 ∷ [])
