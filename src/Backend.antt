-- ===== src/Backend.antt =====
-- All that the services use, and the state of it all.
use redis_project.Base.{ℕ, ◌≡◌, Option, some, List, Text}
use redis_project.Base.Int.{ℤ}
use redis_project.Database.{Database}
use redis_project.Redis.Counters.{CounterServer}
use redis_project.Redis.Sets.{SetServer}
use redis_project.Redis.Streams.{StreamServer}
use redis_project.Redis.Strings.{StringServer}
use redis_project.Redis.Zsets.{ZsetServer}

-- `NotificationEvent` of app/schemas/notification.py. The time is in microseconds.
pub record NotificationEvent : Type 0 where
  pub kind : Text
  pub actor_id : ℕ
  pub recipient_id : ℕ
  pub object_type : Text
  pub object_id : ℕ
  pub message : Text
  pub ts : ℕ

-- The payloads of the two job streams.
pub data Job : Type 0 where
  fanout_post : ℕ → ℕ → ℕ → Job
  backfill_follower : ℕ → ℕ → Job
  persist : NotificationEvent → Job
  -- a payload of another type
  unknown : Text → Job

-- JSON by orjson: what was dumped is loaded again.
pub record Codec (A : Type 0) : Type 0 where
  pub dumps : A → Text
  pub loads : Text → Option A
  pub loads_dumps : (a : A) → loads (dumps a) ≡ some a

pub record Backend : Type 1 where
  pub zsets : ZsetServer
  pub counters : CounterServer
  pub sets : SetServer
  pub strings : StringServer
  pub streams : StreamServer
  pub database : Database
  pub events : Codec NotificationEvent
  pub jobs : Codec Job
  -- The trending score of a post: its creation time, its likes and the present time, by floats.
  pub trending_score : ℕ → ℤ → ℕ → ℕ

-- The servers, the messages that have been published, and the time in microseconds.
pub record App (b : Backend) : Type 0 where
  pub zsets : b.zsets.Server
  pub counters : b.counters.Server
  pub sets : b.sets.Server
  pub strings : b.strings.Server
  pub streams : b.streams.Server
  pub db : b.database.Db
  pub published : List (Text × NotificationEvent)
  pub now : ℕ
