-- ===== src/Config/Precedence.antt =====
-- loader.go and config.go: which source a text of the configuration comes from.
use webtracker.Shared.{
  ◌≡◌, inl, inr, refl, ap, ◌∙◌, Option, none, some, String, List, [], ◌∷◌, if◌then◌else◌, All,
  arith, str_eq, Option-cases,
}
use webtracker.Shared.Errors.{ok}
use webtracker.Config.{
  when_set, when_number, database_password, DatabaseConfig, DatabaseConfig, default_database,
  default_redis, default_alert, Config, default_config, load_from_env, server_from_env,
  database_from_env, redis_from_env, telegram_from_env, email_from_env, webhook_from_env,
  logging_from_env,
}
use webtracker.Config.Files.{Sources, lookup_env, get_env, has_env}
use webtracker.Config.Loader.{env_config, merge_configs_selectively, load_config, base_config}

-- The texts of the configuration that have a variable of their own.
abbrev pub text_settings : List (String × (Config → String))
text_settings =
    ("HOST", λ c. c.server.host)
    ∷ ("DB_HOST", λ c. c.database.host)
    ∷ ("DB_NAME", λ c. c.database.database)
    ∷ ("DB_USER", λ c. c.database.user)
    ∷ ("DB_SSL_MODE", λ c. c.database.ssl_mode)
    ∷ ("REDIS_ADDR", λ c. c.redis.addr)
    ∷ ("REDIS_PASSWORD", λ c. c.redis.password)
    ∷ ("TELEGRAM_BOT_TOKEN", λ c. c.alert.telegram.bot_token)
    ∷ ("TELEGRAM_CHAT_ID", λ c. c.alert.telegram.chat_id)
    ∷ ("SMTP_HOST", λ c. c.alert.email.smtp_host)
    ∷ ("SMTP_USERNAME", λ c. c.alert.email.username)
    ∷ ("SMTP_PASSWORD", λ c. c.alert.email.password)
    ∷ ("SMTP_FROM_ADDRESS", λ c. c.alert.email.from_address)
    ∷ ("WEBHOOK_URL", λ c. c.alert.webhook.url)
    ∷ ("LOG_LEVEL", λ c. c.logging.level)
    ∷ ("LOG_FORMAT", λ c. c.logging.format)
    ∷ []

-- The variable if it is set to a text, the default if it is set to none, and else the file.
abbrev pub from_sources : Option String → String → String → String
from_sources none file default = file
from_sources (some value) file default = if str_eq value "" then default else value

module _ (src : Sources) where
  -- How each text of the environment's configuration comes about.
  env_text : String → String → String
  env_text key default = if str_eq (get_env src key) "" then default else get_env src key

  chosen_lem :
      (key file default : String)
      → (if has_env src key then env_text key default else file)
        ≡ from_sources (lookup_env src key) file default
  unfolding env_text has_env get_env
  chosen_lem key file default = elim (Option-cases (lookup_env src key)) [
    | inl e ↦ rw (has_env, e) refl
    | inr (value, e) ↦ rw (has_env, get_env, e) refl
  ]

  setting_lem :
      (key env file default : String)
      → env ≡ env_text key default
      → (if has_env src key then env else file) ≡ from_sources (lookup_env src key) file default
  setting_lem key env file default e = rw e (chosen_lem key file default)

  server_texts :
      let c = server_from_env (get_env src) src.atoi src.to_lower default_config.server in
      c.host ≡ env_text "HOST" default_config.server.host
  unfolding env_text server_from_env
  server_texts = ground arith

  -- The password and the mode are set last, and leave the other texts.
  last_steps : DatabaseConfig → DatabaseConfig
  last_steps c =
      when_set (get_env src) src.atoi src.to_lower "DB_SSL_MODE" (λ v c. record c { ssl_mode = v })
        (database_password (get_env src) src.atoi src.to_lower c)

  last_steps_keep :
      (c : DatabaseConfig)
      → ((last_steps c).host ≡ c.host)
        × ((last_steps c).database ≡ c.database)
        × ((last_steps c).user ≡ c.user)
        × ((last_steps c).ssl_mode ≡ env_text "DB_SSL_MODE" c.ssl_mode)
  unfolding last_steps env_text
  last_steps_keep c = (ground arith, ground arith, ground arith, ground arith)

  first_steps : DatabaseConfig
  first_steps =
      when_set (get_env src) src.atoi src.to_lower "DB_USER" (λ v c. record c { user = v })
        (when_set (get_env src) src.atoi src.to_lower "DB_NAME" (λ v c. record c { database = v })
          (when_number (get_env src) src.atoi src.to_lower "DB_PORT" (λ n c. record c { port = n })
            (when_set (get_env src) src.atoi src.to_lower "DB_HOST" (λ v c. record c { host = v })
              default_database)))

  first_steps_lem :
      (first_steps.host ≡ env_text "DB_HOST" default_database.host)
      × (first_steps.database ≡ env_text "DB_NAME" default_database.database)
      × (first_steps.user ≡ env_text "DB_USER" default_database.user)
      × (first_steps.ssl_mode ≡ default_database.ssl_mode)
  unfolding first_steps env_text
  first_steps_lem = (ground arith, ground arith, ground arith, ground arith)

  split_lem :
      database_from_env (get_env src) src.atoi src.to_lower default_database
      ≡ last_steps first_steps
  unfolding database_from_env last_steps first_steps
  split_lem = refl

  database_texts :
      let c = database_from_env (get_env src) src.atoi src.to_lower default_database in
      (c.host ≡ env_text "DB_HOST" default_database.host)
      × (c.database ≡ env_text "DB_NAME" default_database.database)
      × (c.user ≡ env_text "DB_USER" default_database.user)
      × (c.ssl_mode ≡ env_text "DB_SSL_MODE" default_database.ssl_mode)
  database_texts =
      let (h, n, u, m) = last_steps_keep first_steps in
      let (h', n', u', m') = first_steps_lem in
      rw split_lem (h ∙ h', n ∙ n', u ∙ u', m ∙ ap (env_text "DB_SSL_MODE") m')

  redis_texts :
      let c = redis_from_env (get_env src) src.atoi src.to_lower default_redis in
      (c.addr ≡ env_text "REDIS_ADDR" default_redis.addr)
      × (c.password ≡ env_text "REDIS_PASSWORD" default_redis.password)
  unfolding env_text redis_from_env
  redis_texts = (ground arith, ground arith)

  telegram_texts :
      let c = telegram_from_env (get_env src) src.atoi src.to_lower default_alert.telegram in
      (c.bot_token ≡ env_text "TELEGRAM_BOT_TOKEN" default_alert.telegram.bot_token)
      × (c.chat_id ≡ env_text "TELEGRAM_CHAT_ID" default_alert.telegram.chat_id)
  unfolding env_text telegram_from_env
  telegram_texts = (ground arith, ground arith)

  email_texts :
      let c = email_from_env (get_env src) src.atoi src.to_lower default_alert.email in
      (c.smtp_host ≡ env_text "SMTP_HOST" default_alert.email.smtp_host)
      × (c.username ≡ env_text "SMTP_USERNAME" default_alert.email.username)
      × (c.password ≡ env_text "SMTP_PASSWORD" default_alert.email.password)
      × (c.from_address ≡ env_text "SMTP_FROM_ADDRESS" default_alert.email.from_address)
  unfolding env_text email_from_env
  email_texts = (ground arith, ground arith, ground arith, ground arith)

  webhook_texts :
      let c = webhook_from_env (get_env src) src.atoi src.to_lower default_alert.webhook in
      c.url ≡ env_text "WEBHOOK_URL" default_alert.webhook.url
  unfolding env_text webhook_from_env
  webhook_texts = ground arith

  logging_texts :
      let c = logging_from_env (get_env src) src.atoi src.to_lower default_config.logging in
      (c.level ≡ env_text "LOG_LEVEL" default_config.logging.level)
      × (c.format ≡ env_text "LOG_FORMAT" default_config.logging.format)
  unfolding env_text logging_from_env
  logging_texts = (ground arith, ground arith)

  abbrev pub IsFrom : Config → Config → String × (Config → String) → Type 0
  IsFrom merged file (key, setting) =
      setting merged ≡ from_sources (lookup_env src key) (setting file) (setting default_config)

  merged_texts :
      (file : Config)
      → All (IsFrom (merge_configs_selectively src file (env_config src)) file) text_settings
  unfolding merge_configs_selectively load_from_env
  merged_texts file = (
    setting_lem "HOST" _ file.server.host default_config.server.host server_texts,
    (
      setting_lem "DB_HOST" _ file.database.host default_database.host database_texts.0,
      (
        setting_lem "DB_NAME" _ file.database.database default_database.database database_texts.1,
        (
          setting_lem "DB_USER" _ file.database.user default_database.user database_texts.2,
          (
            setting_lem "DB_SSL_MODE" _ file.database.ssl_mode default_database.ssl_mode
                database_texts.3,
            (
              setting_lem "REDIS_ADDR" _ file.redis.addr default_redis.addr redis_texts.0,
              (
                setting_lem "REDIS_PASSWORD" _ file.redis.password default_redis.password
                    redis_texts.1,
                (
                  setting_lem "TELEGRAM_BOT_TOKEN" _ file.alert.telegram.bot_token
                      default_alert.telegram.bot_token telegram_texts.0,
                  (
                    setting_lem "TELEGRAM_CHAT_ID" _ file.alert.telegram.chat_id
                        default_alert.telegram.chat_id telegram_texts.1,
                    (
                      setting_lem "SMTP_HOST" _ file.alert.email.smtp_host
                          default_alert.email.smtp_host email_texts.0,
                      (
                        setting_lem "SMTP_USERNAME" _ file.alert.email.username
                            default_alert.email.username email_texts.1,
                        (
                          setting_lem "SMTP_PASSWORD" _ file.alert.email.password
                              default_alert.email.password email_texts.2,
                          (
                            setting_lem "SMTP_FROM_ADDRESS" _ file.alert.email.from_address
                                default_alert.email.from_address email_texts.3,
                            (
                              setting_lem "WEBHOOK_URL" _ file.alert.webhook.url
                                  default_alert.webhook.url webhook_texts,
                              (
                                setting_lem "LOG_LEVEL" _ file.logging.level
                                    default_config.logging.level logging_texts.0,
                                (
                                  setting_lem "LOG_FORMAT" _ file.logging.format
                                      default_config.logging.format logging_texts.1,
                                  tt,
                                ),
                              ),
                            ),
                          ),
                        ),
                      ),
                    ),
                  ),
                ),
              ),
            ),
          ),
        ),
      ),
    ),
  )

  -- For a configuration that is loaded, each text that has a variable of its own is what the
  -- environment or the `.env` file sets it to; it is the default, and not what the file says, if
  -- the variable is set to nothing; and it is what the file says if the variable is not set.
  pub loaded_texts :
      (name : String) (file : Config)
      → base_config src name ≡ ok file
      → (c : Config) × (load_config src name ≡ ok c) × All (IsFrom c file) text_settings
  unfolding load_config
  loaded_texts name file e =
      (merge_configs_selectively src file (env_config src), rw e refl, merged_texts file)
