-- ===== src/Config.antt =====
-- config/config.go: the configuration, its defaults, and its values from the environment.
-- The environment, `strconv.Atoi` and `strings.ToLower` are parameters. Reading files is in Config/Files.
pub mod Validation
pub mod Rules
pub mod Environment
pub mod Files
pub mod Substitution
pub mod Loader
pub mod Precedence
use webtracker.Shared.{Bool, true, false, String, List, [], ◌∷◌, if◌then◌else◌, str_eq}
use webtracker.Shared.Int.{ℤ, pos}
use webtracker.Shared.Clock.{Duration, seconds, minutes, hours}
use webtracker.Shared.Errors.{Result, ok, err}

pub record ServerConfig : Type 0 where
  pub port : ℤ
  pub host : String
  pub read_timeout : Duration
  pub write_timeout : Duration
  pub idle_timeout : Duration

pub record DatabaseConfig : Type 0 where
  pub host : String
  pub port : ℤ
  pub database : String
  pub user : String
  pub password : String
  pub ssl_mode : String
  pub max_connections : ℤ
  pub min_connections : ℤ
  pub connect_timeout : Duration
  pub max_conn_lifetime : Duration

pub record RedisConfig : Type 0 where
  pub addr : String
  pub password : String
  pub db : ℤ
  pub pool_size : ℤ
  pub min_idle_conns : ℤ
  pub dial_timeout : Duration
  pub read_timeout : Duration
  pub write_timeout : Duration
  pub enabled : Bool

pub record TelegramConfig : Type 0 where
  pub bot_token : String
  pub chat_id : String
  pub enabled : Bool

pub record EmailConfig : Type 0 where
  pub smtp_host : String
  pub smtp_port : ℤ
  pub username : String
  pub password : String
  pub from_address : String
  pub from_name : String
  pub use_tls : Bool
  pub use_start_tls : Bool
  pub enabled : Bool

pub record WebhookConfig : Type 0 where
  pub url : String
  pub headers : List (String × String)
  pub timeout : Duration
  pub enabled : Bool

pub record AlertConfig : Type 0 where
  pub telegram : TelegramConfig
  pub email : EmailConfig
  pub webhook : WebhookConfig

pub record WorkerConfig : Type 0 where
  pub pool_size : ℤ
  pub queue_size : ℤ
  pub job_timeout : Duration
  pub idle_timeout : Duration

pub record LoggingConfig : Type 0 where
  pub level : String
  pub format : String
  pub output : String

pub record SessionConfig : Type 0 where
  pub ttl : Duration
  pub cookie_secure : Bool

pub record Config : Type 0 where
  pub server : ServerConfig
  pub database : DatabaseConfig
  pub redis : RedisConfig
  pub alert : AlertConfig
  pub worker : WorkerConfig
  pub logging : LoggingConfig
  pub session : SessionConfig

abbrev pub default_alert : AlertConfig
default_alert = record {
  telegram = record { bot_token = ""; chat_id = ""; enabled = false };
  email = record {
    smtp_host = "";
    smtp_port = pos 587;
    username = "";
    password = "";
    from_address = "";
    from_name = "";
    use_tls = true;
    use_start_tls = true;
    enabled = false;
  };
  webhook = record { url = ""; headers = []; timeout = pos (seconds 10); enabled = false };
}

abbrev pub default_database : DatabaseConfig
default_database = record {
  host = "localhost";
  port = pos 5432;
  database = "uptime_monitor";
  user = "postgres";
  password = "";
  ssl_mode = "disable";
  max_connections = pos 20;
  min_connections = pos 2;
  connect_timeout = pos (seconds 10);
  max_conn_lifetime = pos (hours 1);
}

abbrev pub default_redis : RedisConfig
default_redis = record {
  addr = "localhost:6379";
  password = "";
  db = pos 0;
  pool_size = pos 5;
  min_idle_conns = pos 1;
  dial_timeout = pos (seconds 5);
  read_timeout = pos (seconds 3);
  write_timeout = pos (seconds 3);
  enabled = true;
}

abbrev pub default_config : Config
default_config = record {
  server = record {
    port = pos 8080;
    host = "0.0.0.0";
    read_timeout = pos (seconds 30);
    write_timeout = pos (seconds 30);
    idle_timeout = pos (seconds 120);
  };
  database = default_database;
  redis = default_redis;
  alert = default_alert;
  worker = record {
    pool_size = pos 8;
    queue_size = pos 500;
    job_timeout = pos (seconds 60);
    idle_timeout = pos (minutes 5);
  };
  logging = record { level = "info"; format = "json"; output = "stdout" };
  session = record { ttl = pos (hours 24); cookie_secure = false };
}

module _ (get_env : String → String) (atoi : String → Result ℤ) (to_lower : String → String) where
  -- if value := getEnv(name); value != "" { … }
  abbrev pub when_set : {A : Type 0} → String → (String → A → A) → A → A
  when_set name f a = if str_eq (get_env name) "" then a else f (get_env name) a

  abbrev or_else : {A : Type 0} → Result ℤ → A → (ℤ → A) → A
  or_else (ok n) a f = f n
  or_else (err e) a f = a

  -- A number that does not parse is ignored.
  abbrev pub when_number : {A : Type 0} → String → (ℤ → A → A) → A → A
  when_number name f = when_set name (λ text a. or_else (atoi text) a (λ n. f n a))

  unfoldable pub server_from_env : ServerConfig → ServerConfig
  server_from_env c =
      when_set "HOST" (λ v c. record c { host = v })
        (when_number "PORT" (λ n c. record c { port = n }) c)

  abbrev database_password : DatabaseConfig → DatabaseConfig
  database_password c =
      if str_eq (get_env "DB_PASSWORD") ""
      then when_set "POSTGRES_PASSWORD" (λ v c. record c { password = v }) c
      else record c { password = get_env "DB_PASSWORD" }

  unfoldable pub database_from_env : DatabaseConfig → DatabaseConfig
  database_from_env c =
      when_set "DB_SSL_MODE" (λ v c. record c { ssl_mode = v })
        (database_password (
          when_set "DB_USER" (λ v c. record c { user = v })
            (when_set "DB_NAME" (λ v c. record c { database = v })
              (when_number "DB_PORT" (λ n c. record c { port = n })
                (when_set "DB_HOST" (λ v c. record c { host = v }) c)))))

  unfoldable pub redis_from_env : RedisConfig → RedisConfig
  redis_from_env c =
      when_set "REDIS_ENABLED" (λ v c. record c { enabled = str_eq (to_lower v) "true" })
        (when_number "REDIS_DB" (λ n c. record c { db = n })
          (when_set "REDIS_PASSWORD" (λ v c. record c { password = v })
            (when_set "REDIS_ADDR" (λ v c. record c { addr = v }) c)))

  unfoldable pub telegram_from_env : TelegramConfig → TelegramConfig
  telegram_from_env c =
      when_set "TELEGRAM_CHAT_ID" (λ v c. record c { chat_id = v })
        (when_set "TELEGRAM_BOT_TOKEN" (λ v c. record c { bot_token = v; enabled = true }) c)

  unfoldable pub email_from_env : EmailConfig → EmailConfig
  email_from_env c =
      when_set "SMTP_FROM_ADDRESS" (λ v c. record c { from_address = v })
        (when_set "SMTP_PASSWORD" (λ v c. record c { password = v })
          (when_set "SMTP_USERNAME" (λ v c. record c { username = v })
            (when_number "SMTP_PORT" (λ n c. record c { smtp_port = n })
              (when_set "SMTP_HOST" (λ v c. record c { smtp_host = v; enabled = true }) c))))

  unfoldable pub webhook_from_env : WebhookConfig → WebhookConfig
  webhook_from_env = when_set "WEBHOOK_URL" (λ v c. record c { url = v; enabled = true })

  unfoldable pub worker_from_env : WorkerConfig → WorkerConfig
  worker_from_env = when_number "WORKER_POOL_SIZE" (λ n c. record c { pool_size = n })

  unfoldable pub logging_from_env : LoggingConfig → LoggingConfig
  logging_from_env c =
      when_set "LOG_FORMAT" (λ v c. record c { format = v })
        (when_set "LOG_LEVEL" (λ v c. record c { level = v }) c)

  unfoldable pub load_from_env : Config
  load_from_env = record default_config {
    server = server_from_env default_config.server;
    database = database_from_env default_database;
    redis = redis_from_env default_redis;
    alert = record {
      telegram = telegram_from_env default_alert.telegram;
      email = email_from_env default_alert.email;
      webhook = webhook_from_env default_alert.webhook;
    };
    worker = worker_from_env default_config.worker;
    logging = logging_from_env default_config.logging;
  }
