-- ===== src/Api/Health.antt =====
-- app/api/health.py.
use redis_project.Base.{ℕ, Bool, Option, Text, codes, length, if◌then◌else◌}
use mathlib.Core.Option
use redis_project.Api.{Site, Web, Reply, ok}
use redis_project.Keys

pub record Health : Type 0 where
  pub pong : Bool
  pub latency_ms : ℕ
  pub fanout : ℕ
  pub notifications : ℕ

pub record Metrics : Type 0 where
  pub redis_memory_used_bytes : ℕ
  pub redis_memory_peak_bytes : ℕ
  pub fanout_queue_len : ℕ
  pub notifications_queue_len : ℕ
  pub trending_zset_size : ℕ
  pub recent_activity_len : ℕ

-- EXISTS on the streams.
module _ (p : Site) (exists : p.backend.streams.Server → Text → Bool) where
  -- `await redis.xlen(key) if await redis.exists(key) else 0`
  unfoldable pub queue_len : Text → Web p → ℕ
  queue_len key w =
      if exists w.app.streams key then length (p.backend.streams.entries w.app.streams key) else 0

  -- The ping's reply, and its time in hundredths of a millisecond, are given.
  unfoldable pub health : Bool → ℕ → Web p → Reply Health
  unfolding queue_len
  health pong latency w = ok (record {
    pong = pong;
    latency_ms = latency;
    fanout = queue_len Keys.stream_fanout w;
    notifications = queue_len Keys.stream_notifications w;
  })

  -- The dictionary that INFO memory answers with is given.
  unfoldable pub metrics : (Text → Option ℕ) → Web p → Reply Metrics
  unfolding queue_len
  metrics info w = ok (record {
    redis_memory_used_bytes = Option.get_or (info (codes "used_memory")) 0;
    redis_memory_peak_bytes = Option.get_or (info (codes "used_memory_peak")) 0;
    fanout_queue_len = queue_len Keys.stream_fanout w;
    notifications_queue_len = queue_len Keys.stream_notifications w;
    trending_zset_size = p.backend.zsets.zcard w.app.zsets Keys.trending_posts;
    recent_activity_len = length (p.lists.items w.lists Keys.recent_activity);
  })
