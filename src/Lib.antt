-- ===== src/Lib.antt =====
-- A Redis-centric social feed backend: FastAPI handlers call services, the services keep posts,
-- follows, likes and comments in Postgres and everything hot in Redis: timelines as sorted sets,
-- the social graph as sets, counters, sessions, locks, rate limits, notifications as streams.
-- Workers take jobs from two streams and fan posts out, or persist notifications.
--
-- Redis and Postgres are not part of the repository, so they are parameters: the records of
-- Redis/ state, for each command that the code uses, what the code relies on; Database lists the
-- statements on the tables, of which Database/Tables states what a theorem relies on. A time is an
-- argument of each operation or a field of the state, so every order and spacing of calls is a
-- sequence of operations. The modules Tests/ give servers that meet the interfaces.
--
-- The files and what they model:
--   Base, Base/: shared names, Boolean tests on native numbers, lists, texts and integers.
--   Keys, Keys/: app/redis_layer/keys.py. Each method of K is the function of its name from its
--     arguments to the text of the key. Keys/Names lists the keys as data, Keys/Decode reads a key
--     back, Keys/Apart compares keys, Keys/Decimal prints numbers.
--   Redis, Redis/: the interfaces of sorted sets, strings with a time to live, expiring hashes and
--     sets, lists, counters, sets, streams, leaderboards and HyperLogLogs; Redis/Client is
--     app/redis_layer/client.py, and Redis/Pubsub `subscribe` of app/redis_layer/pubsub.py.
--   RateLimiter: the sliding window of app/redis_layer/rate_limiter.py. `sliding_lua` is the
--     script `_SLIDING_LUA`, `check` is SlidingWindowLimiter.check. Scores are milliseconds.
--   RateLimiter/Bucket: the token bucket of the same file, in exact thousandths of a token where
--     the script has doubles; the rounding of these is not modelled.
--   Lock: app/redis_layer/lock.py. `attempt` is one SET NX PX, `acquire_loop` the retry loop,
--     `release_lua` the script, `redis_lock` the context manager. The retry loop runs on fuel;
--     wait_ms + 1 attempts are enough.
--   Sessions: app/services/session_service.py. A `Store` holds the hashes and the sets; the clock
--     counts seconds.
--   Feed: the timelines of app/services/feed_service.py. A pipeline is a list of commands;
--     scores, which the code keeps as float seconds, are whole microseconds.
--   Config: app/config.py. The constants that Feed and Sessions use are its defaults.
--   Database, Backend: the tables of app/models that services write, and the state of all stores.
--   Services/Notify: app/services/notification_service.py, with the `publish` of
--     app/redis_layer/queue.py and of app/redis_layer/pubsub.py.
--   Services/Follow: app/services/follow_service.py.
--   Services/Likes: the likes and comments of app/services/post_service.py, and the trending
--     scores' writes of app/services/trending_service.py. The lock of a like waits for nobody, so its loop
--     gets fuel 1.
--   Services/Posts: create_post of app/services/feed_service.py.
--   Services/Hydrate: hydrate_posts of the same file.
--   Services/Users: the profiles of app/services/user_service.py.
--   Services/Accounts: create_user of the same file, with app/security.py as an interface.
--   Services/Social: calls of these services and of the fan-out worker on one state, as a step
--     relation, and the tables against what Redis says of them.
--   Services/Graph: sets of ids and counters under a family of keys.
--   Services/Notifier: app/workers/notification_worker.py. Whether a commit goes through is an
--     argument.
--   Services/Trending: the rest of app/services/trending_service.py.
--   Services/Workers: the job handler of app/workers/fanout_worker.py. Its loop over batches runs on
--     fuel, the number of followers, which no number of batches exceeds.
--   Queue: app/redis_layer/queue.py, and the loops of app/workers/fanout_worker.py and
--     app/workers/notification_worker.py around it, for any handler. Each round is given its time; a
--     run is as many rounds as times are given. Queue/Delivered has the step relation of producers
--     and workers, with the trimming of the stream, Queue/Start the groups of `lifespan` of app/main.py.
--   Middleware: app/api/middleware.py, with the two limits of app/config.py as a record.
--   Cache: app/redis_layer/cache.py. The polls of a caller without the lock are structural
--     recursion on the number of retries that are left.
--   Activity: app/services/analytics_service.py: the activity logs, in Activity/Daily the counts of
--     users and viewers, and in Activity/Karma the leaderboard.
--   Api: the dependency `current_user_id` of app/api/deps.py on the state of all routes, a `Web`,
--     which has one clock. Api/Auth, Api/Users, Api/Notifications, Api/Analytics, Api/Posts and
--     Api/Health have the routes of the files of these names, Api/Feed those that hydrate posts. A
--     WebSocket's loop is given what completes in each of its rounds.
--   Tests, Tests/: sample servers, and the theorems at concrete inputs.
--
-- Not modelled: HTTP itself with the checks of parameters by FastAPI, logging, JWT and password
-- hashing, SQL itself, the static frontend, the deployment files, and failures of the connection
-- to a server.
pub mod Api
pub mod Base
pub mod Keys
pub mod Redis
pub mod RateLimiter
pub mod Lock
pub mod Sessions
pub mod Feed
pub mod Database
pub mod Backend
pub mod Config
pub mod Services
pub mod Queue
pub mod Middleware
pub mod Cache
pub mod Activity
mod Tests
