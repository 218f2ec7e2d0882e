-- ===== src/Queue/Start.antt =====
-- The consumer groups that `lifespan` of app/main.py ensures.
use redis_project.Queue.{Json, ensure_group}
use redis_project.Redis.Groups.{GroupServer}

-- The fan-out stream and the notification stream.
unfoldable pub lifespan :
    {P Q : Type 0} → Json P → Json Q → (g : GroupServer) → g.Server × g.Server → g.Server × g.Server
unfolding ensure_group
lifespan jobs events g (fanout, notifications) =
    (ensure_group jobs g fanout, ensure_group events g notifications)
