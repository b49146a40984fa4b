-- ===== src/Config/Loader.antt =====
-- config/loader.go: the configuration from a file and from the environment, and whether it is
-- usable. Writing a sample configuration is left out.
use webtracker.Shared.{is_empty, ◌||◌, String, List, [], ◌∷◌, if◌then◌else◌, str_eq}
use webtracker.Shared.Errors.{Error, Result, ok, err, failure}
use webtracker.Shared.Effects.{in_context}
use Prim.Native.String.{◌++◌ as concat}
use webtracker.Config.Files.{Sources, get_env, has_env, load_from_file}
use webtracker.Config.Validation.{ValidationError, Texts, Tests, validate, validate_connectivity}
use webtracker.Config.{
  Config, ServerConfig, DatabaseConfig, RedisConfig, TelegramConfig, EmailConfig, WebhookConfig,
  default_config, load_from_env,
}

module _ (src : Sources) where
  abbrev pub env_config : Config
  env_config = load_from_env (get_env src) src.atoi src.to_lower

  -- if hasEnv(key) { fileConfig.… = envConfig.… }
  abbrev pub chosen : {A : Type 0} → String → A → A → A
  chosen key env file = if has_env src key then env else file

  unfoldable pub merge_server : ServerConfig → ServerConfig → ServerConfig
  merge_server file env = record file {
    port = chosen "PORT" env.port file.port;
    host = chosen "HOST" env.host file.host;
  }

  unfoldable pub merge_database : DatabaseConfig → DatabaseConfig → DatabaseConfig
  merge_database file env = record file {
    host = chosen "DB_HOST" env.host file.host;
    port = chosen "DB_PORT" env.port file.port;
    database = chosen "DB_NAME" env.database file.database;
    user = chosen "DB_USER" env.user file.user;
    password =
        if has_env src "DB_PASSWORD" || has_env src "POSTGRES_PASSWORD"
        then env.password
        else file.password;
    ssl_mode = chosen "DB_SSL_MODE" env.ssl_mode file.ssl_mode;
  }

  unfoldable pub merge_redis : RedisConfig → RedisConfig → RedisConfig
  merge_redis file env = record file {
    addr = chosen "REDIS_ADDR" env.addr file.addr;
    password = chosen "REDIS_PASSWORD" env.password file.password;
    db = chosen "REDIS_DB" env.db file.db;
    enabled = chosen "REDIS_ENABLED" env.enabled file.enabled;
  }

  unfoldable pub merge_telegram : TelegramConfig → TelegramConfig → TelegramConfig
  merge_telegram file env = record file {
    bot_token = chosen "TELEGRAM_BOT_TOKEN" env.bot_token file.bot_token;
    enabled = chosen "TELEGRAM_BOT_TOKEN" env.enabled file.enabled;
    chat_id = chosen "TELEGRAM_CHAT_ID" env.chat_id file.chat_id;
  }

  unfoldable pub merge_email : EmailConfig → EmailConfig → EmailConfig
  merge_email file env = record file {
    smtp_host = chosen "SMTP_HOST" env.smtp_host file.smtp_host;
    enabled = chosen "SMTP_HOST" env.enabled file.enabled;
    smtp_port = chosen "SMTP_PORT" env.smtp_port file.smtp_port;
    username = chosen "SMTP_USERNAME" env.username file.username;
    password = chosen "SMTP_PASSWORD" env.password file.password;
    from_address = chosen "SMTP_FROM_ADDRESS" env.from_address file.from_address;
  }

  unfoldable pub merge_webhook : WebhookConfig → WebhookConfig → WebhookConfig
  merge_webhook file env = record file {
    url = chosen "WEBHOOK_URL" env.url file.url;
    enabled = chosen "WEBHOOK_URL" env.enabled file.enabled;
  }

  unfoldable pub merge_configs_selectively : Config → Config → Config
  unfolding merge_server merge_database merge_redis merge_telegram merge_email merge_webhook
  merge_configs_selectively file env = record file {
    server = merge_server file.server env.server;
    database = merge_database file.database env.database;
    redis = merge_redis file.redis env.redis;
    alert = record {
      telegram = merge_telegram file.alert.telegram env.alert.telegram;
      email = merge_email file.alert.email env.alert.email;
      webhook = merge_webhook file.alert.webhook env.alert.webhook;
    };
    worker = record file.worker {
      pool_size = chosen "WORKER_POOL_SIZE" env.worker.pool_size file.worker.pool_size;
    };
    logging = record file.logging {
      level = chosen "LOG_LEVEL" env.logging.level file.logging.level;
      format = chosen "LOG_FORMAT" env.logging.format file.logging.format;
    };
  }

  abbrev pub default_files : List String
  default_files =
      "config.yaml" ∷ "config.yml" ∷ "config.json" ∷ "configs/config.yaml" ∷ "configs/config.yml"
      ∷ "configs/config.json" ∷ []

  unfoldable pub first_file : List String → Result Config
  unfolding load_from_file
  first_file [] = err (failure "no default config file found")
  first_file (name ∷ names) =
      let rest = first_file names in if src.exists name then load_from_file src name else rest

  unfoldable pub load_default_config_file : Result Config
  unfolding first_file
  load_default_config_file = first_file default_files

  -- An error, also of a file that is there, gives the defaults.
  abbrev or_defaults : Result Config → Config
  or_defaults (ok config) = config
  or_defaults (err e) = default_config

  -- The configuration before the environment is looked at.
  unfoldable pub base_config : String → Result Config
  unfolding load_default_config_file load_from_file
  base_config name =
      if str_eq name ""
      then ok (or_defaults load_default_config_file)
      else in_context (concat "failed to load config from " name) (load_from_file src name)

  abbrev merged : Result Config → Result Config
  merged (ok file) = ok (merge_configs_selectively file env_config)
  merged (err e) = err e

  unfoldable pub load_config : String → Result Config
  unfolding base_config merge_configs_selectively
  load_config name = merged (base_config name)

-- `LoadAndValidateConfig` and `LoadAndValidateWithConnectivity` return a configuration or an error.
pub data Loaded : Type 0 where
  usable : Config → Loaded
  not_loaded : Error → Loaded
  not_valid not_reachable : List ValidationError → Loaded

module _ (src : Sources) (texts : Texts) where
  abbrev validated : Result Config → Loaded
  validated (err e) = not_loaded e
  validated (ok c) =
      let errors = validate texts c in if is_empty errors then usable c else not_valid errors

  unfoldable pub load_and_validate_config : String → Loaded
  unfolding load_config validate
  load_and_validate_config name = validated (load_config src name)

module _ (src : Sources) (texts : Texts) (tests : Tests) where
  abbrev reached : Loaded → Loaded
  reached (usable c) =
      let errors = validate_connectivity tests c in
      if is_empty errors then usable c else not_reachable errors
  reached other = other

  unfoldable pub load_and_validate_with_connectivity : String → Loaded
  unfolding load_and_validate_config validate_connectivity
  load_and_validate_with_connectivity name = reached (load_and_validate_config src texts name)
