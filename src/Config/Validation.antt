-- ===== src/Config/Validation.antt =====
-- config/validation.go: the checks of a configuration. `strings.ToLower`, `strings.Contains` and
-- `url.Parse` are parameters, and so are the tests of the connections. A message leaves out the
-- text of the error that it quotes.
use webtracker.Shared.{
  Bool, true, false, not, ◌&&◌, ◌||◌, String, List, [], ◌∷◌, ◌++◌, if◌then◌else◌, str_eq, any,
}
use webtracker.Shared.Int.{ℤ, pos, leb_ℤ, ltb_ℤ}
use webtracker.Shared.Errors.{Result, Outcome, ok, err}
use webtracker.Domain.Monitor.{ParsedUrl}
use webtracker.Config.{
  Config, ServerConfig, DatabaseConfig, RedisConfig, TelegramConfig, EmailConfig, WebhookConfig,
  WorkerConfig, LoggingConfig,
}

pub record ValidationError : Type 0 where
  pub field : String
  pub message : String

-- if found { errors = append(errors, …) }
pub record Complaint : Type 0 where
  pub found : Bool
  pub error : ValidationError

abbrev pub complain : Bool → String → String → Complaint
complain found field message = record {
  found = found;
  error = record { field = field; message = message };
}

unfoldable pub errors_of : List Complaint → List ValidationError
errors_of [] = []
errors_of (c ∷ cs) = let rest = errors_of cs in if c.found then c.error ∷ rest else rest

abbrev pub not_positive : ℤ → Bool
not_positive n = leb_ℤ n (pos 0)

abbrev pub bad_port : ℤ → Bool
bad_port n = leb_ℤ n (pos 0) || ltb_ℤ (pos 65535) n

abbrev pub is_one_of : String → List String → Bool
is_one_of s l = any (λ x. str_eq s x) l

abbrev pub ssl_modes : List String
ssl_modes = "disable" ∷ "allow" ∷ "prefer" ∷ "require" ∷ "verify-ca" ∷ "verify-full" ∷ []

abbrev pub levels : List String
levels = "debug" ∷ "info" ∷ "warn" ∷ "error" ∷ "fatal" ∷ "panic" ∷ []

abbrev pub formats : List String
formats = "json" ∷ "text" ∷ []

abbrev pub server_complaints : ServerConfig → List Complaint
server_complaints c =
    complain (bad_port c.port) "server.port" "port must be between 1 and 65535"
    ∷ complain (str_eq c.host "") "server.host" "host cannot be empty"
    ∷ complain (not_positive c.read_timeout) "server.read_timeout" "read_timeout must be positive"
    ∷ complain (not_positive c.write_timeout) "server.write_timeout"
        "write_timeout must be positive"
    ∷ []

abbrev pub database_complaints : DatabaseConfig → List Complaint
database_complaints c =
    complain (str_eq c.host "") "database.host" "host cannot be empty"
    ∷ complain (bad_port c.port) "database.port" "port must be between 1 and 65535"
    ∷ complain (str_eq c.database "") "database.database" "database name cannot be empty"
    ∷ complain (str_eq c.user "") "database.user" "user cannot be empty"
    ∷ complain (not (is_one_of c.ssl_mode ssl_modes)) "database.ssl_mode"
        "ssl_mode must be one of: disable, allow, prefer, require, verify-ca, verify-full"
    ∷ complain (not_positive c.max_connections) "database.max_connections"
        "max_connections must be positive"
    ∷ complain (ltb_ℤ c.min_connections (pos 0)) "database.min_connections"
        "min_connections cannot be negative"
    ∷ complain (ltb_ℤ c.max_connections c.min_connections) "database.min_connections"
        "min_connections cannot be greater than max_connections"
    ∷ []

abbrev pub redis_complaints : RedisConfig → List Complaint
redis_complaints c =
    if not c.enabled
    then []
    else complain (str_eq c.addr "") "redis.addr" "addr cannot be empty when Redis is enabled"
      ∷ complain (ltb_ℤ c.db (pos 0)) "redis.db" "db cannot be negative"
      ∷ complain (not_positive c.pool_size) "redis.pool_size" "pool_size must be positive"
      ∷ []

abbrev pub telegram_complaints : TelegramConfig → List Complaint
telegram_complaints c =
    if c.enabled
    then complain (str_eq c.bot_token "") "alert.telegram.bot_token"
        "bot_token cannot be empty when Telegram is enabled"
      ∷ complain (str_eq c.chat_id "") "alert.telegram.chat_id"
          "chat_id cannot be empty when Telegram is enabled"
      ∷ []
    else []

abbrev pub worker_complaints : WorkerConfig → List Complaint
worker_complaints c =
    complain (not_positive c.pool_size) "worker.pool_size" "pool_size must be positive"
    ∷ complain (not_positive c.queue_size) "worker.queue_size" "queue_size must be positive"
    ∷ complain (not_positive c.job_timeout) "worker.job_timeout" "job_timeout must be positive"
    ∷ []

-- The standard library's functions on texts that are used.
pub record Texts : Type 0 where
  pub to_lower : String → String
  pub has_at : String → Bool
  pub parse_url : String → Result ParsedUrl

module _ (texts : Texts) where
  abbrev pub email_complaints : EmailConfig → List Complaint
  email_complaints c =
      if c.enabled
      then complain (str_eq c.smtp_host "") "alert.email.smtp_host"
          "smtp_host cannot be empty when Email is enabled"
        ∷ complain (bad_port c.smtp_port) "alert.email.smtp_port"
            "smtp_port must be between 1 and 65535"
        ∷ complain (str_eq c.from_address "") "alert.email.from_address"
            "from_address cannot be empty when Email is enabled"
        ∷ complain (not (texts.has_at c.from_address)) "alert.email.from_address"
            "from_address must be a valid email address"
        ∷ []
      else []

  unfoldable pub parsed_complaint : Result ParsedUrl → Complaint
  parsed_complaint (err e) = complain true "alert.webhook.url" "url must be a valid URL"
  parsed_complaint (ok u) =
      if str_eq u.scheme "" || str_eq u.host ""
      then complain true "alert.webhook.url" "url must have a valid scheme (http/https) and host"
      else complain (not (str_eq u.scheme "http") && not (str_eq u.scheme "https"))
          "alert.webhook.url" "url scheme must be http or https"

  unfoldable pub webhook_url_complaint : String → Complaint
  unfolding parsed_complaint
  webhook_url_complaint url =
      if str_eq url ""
      then complain true "alert.webhook.url" "url cannot be empty when Webhook is enabled"
      else parsed_complaint (texts.parse_url url)

  abbrev pub webhook_complaints : WebhookConfig → List Complaint
  webhook_complaints c =
      if c.enabled
      then webhook_url_complaint c.url
        ∷ complain (not_positive c.timeout) "alert.webhook.timeout" "timeout must be positive"
        ∷ []
      else []

  abbrev pub logging_complaints : LoggingConfig → List Complaint
  logging_complaints c =
      complain (not (is_one_of (texts.to_lower c.level) levels)) "logging.level"
        "level must be one of: debug, info, warn, error, fatal, panic"
      ∷ complain (not (is_one_of (texts.to_lower c.format) formats)) "logging.format"
          "format must be one of: json, text"
      ∷ []

  unfoldable pub validate_alert : Config → List ValidationError
  unfolding errors_of
  validate_alert c =
      errors_of (telegram_complaints c.alert.telegram)
      ++ errors_of (email_complaints c.alert.email)
      ++ errors_of (webhook_complaints c.alert.webhook)

  -- The errors of all parts; none where the code returns nil.
  unfoldable pub validate : Config → List ValidationError
  unfolding errors_of validate_alert
  validate c =
      errors_of (server_complaints c.server)
      ++ errors_of (database_complaints c.database)
      ++ errors_of (redis_complaints c.redis)
      ++ validate_alert c
      ++ errors_of (worker_complaints c.worker)
      ++ errors_of (logging_complaints c.logging)

abbrev is_err : Outcome → Bool
is_err (ok _) = false
is_err (err e) = true

-- The tests of the connections to each service.
pub record Tests : Type 0 where
  pub database : Config → Outcome
  pub redis : Config → Outcome
  pub telegram : Config → Outcome
  pub email : Config → Outcome
  pub webhook : Config → Outcome

module _ (tests : Tests) where
  unfoldable pub test_alert_channel_connectivity : Config → List ValidationError
  unfolding errors_of
  test_alert_channel_connectivity c = errors_of (
      complain (c.alert.telegram.enabled && is_err (tests.telegram c)) "alert.telegram"
        "Telegram connectivity test failed"
      ∷ complain (c.alert.email.enabled && is_err (tests.email c)) "alert.email"
          "Email connectivity test failed"
      ∷ complain (c.alert.webhook.enabled && is_err (tests.webhook c)) "alert.webhook"
          "Webhook connectivity test failed"
      ∷ [])

  unfoldable pub validate_connectivity : Config → List ValidationError
  unfolding errors_of test_alert_channel_connectivity
  validate_connectivity c =
      errors_of (
        complain (is_err (tests.database c)) "database" "database connectivity test failed"
        ∷ complain (c.redis.enabled && is_err (tests.redis c)) "redis"
            "redis connectivity test failed"
        ∷ [])
      ++ test_alert_channel_connectivity c
