-- ===== src/Services/Follow.antt =====
-- app/services/follow_service.py.
use redis_project.Base.{
  ℕ, Bool, true, false, none, some, List, [], ◌∷◌, ◌++◌, map, Text, codes, ◌==◌, if◌then◌else◌,
  length, take,
}
use redis_project.Backend.{Backend, App, backfill_follower}
use redis_project.Feed.{int_of}
use redis_project.Keys
use redis_project.Keys.Decimal.{decimal}
use redis_project.Services.Notify.{publish_job, emit_notification}
pub mod Mirror

-- `f"user {follower_id} started following you"`
unfoldable pub follow_message : ℕ → Text
follow_message follower_id = codes "user " ++ decimal follower_id ++ codes " started following you"

module _ (b : Backend) where
  -- The pipeline of `follow`.
  unfoldable pub link : ℕ → ℕ → App b → App b
  link follower_id followee_id a = record a {
    sets =
        b.sets.sadd (b.sets.sadd a.sets (Keys.user_following follower_id) (decimal followee_id))
          (Keys.user_followers followee_id) (decimal follower_id);
    counters =
        b.counters.incr (b.counters.incr a.counters (Keys.user_following_count follower_id))
          (Keys.user_follower_count followee_id);
  }

  -- `follow` once the row is in the table.
  unfoldable pub announce : ℕ → ℕ → App b → App b
  unfolding link follow_message
  announce follower_id followee_id a =
      emit_notification b (codes "follow") follower_id followee_id (codes "user") followee_id
        (follow_message follower_id)
        (publish_job b Keys.stream_fanout (backfill_follower follower_id followee_id)
          (link follower_id followee_id a)).1

  unfoldable pub follow : ℕ → ℕ → App b → Bool × App b
  unfolding announce
  follow follower_id followee_id a =
      if follower_id == followee_id
      then (false, a)
      else (elim (b.database.insert_follow a.db follower_id followee_id) [
        | none ↦ (false, a)
        | some db ↦ (true, announce follower_id followee_id (record a { db = db }))
      ])

  -- The pipeline of `unfollow`.
  unfoldable pub unlink : ℕ → ℕ → App b → App b
  unlink follower_id followee_id a = record a {
    sets =
        b.sets.srem (b.sets.srem a.sets (Keys.user_following follower_id) (decimal followee_id))
          (Keys.user_followers followee_id) (decimal follower_id);
    counters =
        b.counters.decr (b.counters.decr a.counters (Keys.user_following_count follower_id))
          (Keys.user_follower_count followee_id);
  }

  unfoldable pub unfollow : ℕ → ℕ → App b → Bool × App b
  unfolding unlink
  unfollow follower_id followee_id a =
      let (rowcount, db) = b.database.delete_follow a.db follower_id followee_id in
      let a' = record a { db = db } in
      if rowcount == 0 then (false, a') else (true, unlink follower_id followee_id a')

  -- `SADD key *ids`
  unfoldable pub add_all : b.sets.Server → Text → List ℕ → b.sets.Server
  add_all s key [] = s
  add_all s key (id ∷ ids) = add_all (b.sets.sadd s key (decimal id)) key ids

  -- `SRANDMEMBER key limit` is a choice among the members, which `random` makes.
  unfoldable pub get_followers : (List Text → ℕ → List Text) → ℕ → ℕ → App b → List ℕ × App b
  unfolding add_all
  get_followers random user_id limit a =
      let key = Keys.user_followers user_id in
      let members = b.sets.smembers a.sets key in
      let ids = b.database.followers_of a.db user_id in
      if length members == 0
      then (take limit ids, record a { sets = add_all a.sets key ids })
      else (map int_of (random members limit), a)
