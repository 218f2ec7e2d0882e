-- ===== src/Redis/Client.antt =====
-- The client that app/redis_layer/client.py shares in a process.
use redis_project.Base.{Bool, Option, none, some, if◌then◌else◌}

-- The wrapper around a connection.
pub record RedisClient (C : Type 0) : Type 0 where
  pub client : C

unfoldable pub raw : {C : Type 0} → RedisClient C → C
raw wrapper = wrapper.client

-- `get_redis`, with the client that `from_url` makes, and whether it answers the ping. `none` as a
-- reply is the exception, after which the global variable keeps the client.
unfoldable pub get_redis : {C : Type 0} → C → Bool → Option C → Option C × Option C
get_redis fresh answers none = (if answers then some fresh else none, some fresh)
get_redis fresh answers (some client) = (some client, some client)

-- `close_redis`
unfoldable pub close_redis : {C : Type 0} → Option C → Option C
close_redis client = none
