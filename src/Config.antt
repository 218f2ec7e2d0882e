-- ===== src/Config.antt =====
-- app/config.py: the settings with their defaults, and the addresses that are made of them. The
-- values that the environment sets are fields of a `Settings`.
use redis_project.Base.{ℕ, Option, none, some, [], ◌∷◌, ◌++◌, Text, codes}
use redis_project.Keys.Decimal.{decimal}

pub data AppEnv : Type 0 where
  development staging production test : AppEnv

pub record Settings : Type 0 where
  pub app_name : Text
  pub app_env : AppEnv
  pub app_host : Text
  pub app_port : ℕ
  pub log_level : Text
  pub secret_key : Text
  pub access_token_ttl_seconds : ℕ
  pub jwt_algorithm : Text
  pub postgres_host : Text
  pub postgres_port : ℕ
  pub postgres_user : Text
  pub postgres_password : Text
  pub postgres_db : Text
  pub redis_host : Text
  pub redis_port : ℕ
  pub redis_db : ℕ
  pub redis_password : Option Text
  pub redis_max_connections : ℕ
  pub feed_max_size : ℕ
  pub fanout_batch_size : ℕ
  pub celebrity_follower_threshold : ℕ
  pub rate_limit_default_per_minute : ℕ
  pub rate_limit_write_per_minute : ℕ
  -- in hundredths
  pub trending_decay_lambda : ℕ
  pub trending_window_hours : ℕ
  pub worker_name : Text

unfoldable pub defaults : Settings
defaults = record {
  app_name = codes "redis-social-feed";
  app_env = development;
  app_host = codes "0.0.0.0";
  app_port = 8000;
  log_level = codes "INFO";
  secret_key = codes "dev-secret-change-me";
  access_token_ttl_seconds = 86400;
  jwt_algorithm = codes "HS256";
  postgres_host = codes "localhost";
  postgres_port = 5432;
  postgres_user = codes "feeduser";
  postgres_password = codes "feedpass";
  postgres_db = codes "feeddb";
  redis_host = codes "localhost";
  redis_port = 6379;
  redis_db = 0;
  redis_password = none;
  redis_max_connections = 500;
  feed_max_size = 1000;
  fanout_batch_size = 500;
  celebrity_follower_threshold = 10000;
  rate_limit_default_per_minute = 120;
  rate_limit_write_per_minute = 30;
  trending_decay_lambda = 8;
  trending_window_hours = 48;
  worker_name = codes "worker-1";
}

-- What the two addresses of Postgres have in common.
unfoldable pub postgres_address : Settings → Text
postgres_address s =
    s.postgres_user
    ++ (codes ":"
        ++ (s.postgres_password
            ++ (codes "@"
                ++ (s.postgres_host
                    ++ (codes ":" ++ (decimal s.postgres_port ++ (codes "/" ++ s.postgres_db)))))))

unfoldable pub postgres_dsn : Settings → Text
unfolding postgres_address
postgres_dsn s = codes "postgresql+asyncpg://" ++ postgres_address s

unfoldable pub postgres_sync_dsn : Settings → Text
unfolding postgres_address
postgres_sync_dsn s = codes "postgresql+psycopg2://" ++ postgres_address s

-- An empty password counts as none.
unfoldable pub redis_auth : Option Text → Text
redis_auth none = []
redis_auth (some []) = []
redis_auth (some (c ∷ password)) = codes ":" ++ ((c ∷ password) ++ codes "@")

unfoldable pub redis_url : Settings → Text
unfolding redis_auth
redis_url s =
    codes "redis://"
    ++ (redis_auth s.redis_password
        ++ (s.redis_host
            ++ (codes ":" ++ (decimal s.redis_port ++ (codes "/" ++ decimal s.redis_db)))))
