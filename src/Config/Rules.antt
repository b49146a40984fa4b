-- ===== src/Config/Rules.antt =====
-- validation.go: which configurations are accepted.
use webtracker.Shared.{
  Bool-cases, All, ◌≡◌, ◌≢◌, ◌↔◌, ◌⊎◌, inl, inr, refl, true, false, not, String, List, [], ◌∷◌,
  ◌++◌, str_eq, eq_iff, str_eq_ne, arith,
}
use webtracker.Shared.Int.{ℤ, pos, ◌≤ℤ◌, ◌<ℤ◌}
use webtracker.Shared.Errors.{Result-cases, ok}
use webtracker.Domain.Monitor.{ParsedUrl}
use webtracker.Config.{
  Config, ServerConfig, DatabaseConfig, RedisConfig, TelegramConfig, EmailConfig, WebhookConfig,
  WorkerConfig, LoggingConfig,
}
use webtracker.Config.Validation.{
  Complaint, ValidationError, errors_of, Texts, validate, validate_alert, is_one_of, ssl_modes,
  levels, formats, server_complaints, database_complaints, redis_complaints, telegram_complaints,
  email_complaints, webhook_complaints, worker_complaints, logging_complaints,
  webhook_url_complaint, parsed_complaint, bad_port, not_positive,
}

errors_of-empty :
    (cs : List Complaint) → (errors_of cs ≡ []) ↔ All (λ (c : Complaint). c.found ≡ false) cs
unfolding errors_of
errors_of-empty [] = ground arith
errors_of-empty (c ∷ cs) = ground (arith, errors_of-empty cs)

append-empty : (xs ys : List ValidationError) → (xs ++ ys ≡ []) ↔ ((xs ≡ []) × (ys ≡ []))
append-empty [] ys = ground arith
append-empty (x ∷ xs) ys = ground arith

both_iff :
    {P Q : Type 0} (xs ys : List ValidationError)
    → (xs ≡ []) ↔ P
    → (ys ≡ []) ↔ Q
    → (xs ++ ys ≡ []) ↔ (P × Q)
both_iff xs ys h k = (
  λ e. let (ex, ey) = (append-empty xs ys).0 e in (h.0 ex, k.0 ey),
  λ v. (append-empty xs ys).1 (h.1 v.0, k.1 v.1),
)

abbrev pub IsOneOf : String → List String → Type 0
IsOneOf s [] = ⊥
IsOneOf s (x ∷ l) = (s ≡ x) ⊎ IsOneOf s l

IsOneOf-iff : (s : String) (l : List String) → (not (is_one_of s l) ≡ false) ↔ IsOneOf s l
IsOneOf-iff s [] = ground arith
IsOneOf-iff s (x ∷ l) = ground (arith, eq_iff s x, IsOneOf-iff s l)

nonempty_iff : (s : String) → (str_eq s "" ≡ false) ↔ (s ≢ "")
nonempty_iff s = (λ e f. cc (e, (eq_iff s "").1 f), λ h. str_eq_ne s "" h)

abbrev pub IsPort : ℤ → Type 0
IsPort n = (pos 1 ≤ℤ n) × (n ≤ℤ pos 65535)

IsPort-iff : (n : ℤ) → (bad_port n ≡ false) ↔ IsPort n
IsPort-iff (pos n) = ground arith
IsPort-iff n = ground arith

positive_iff : (n : ℤ) → (not_positive n ≡ false) ↔ (pos 0 <ℤ n)
positive_iff n = ground arith

pub record IsValidServer (c : ServerConfig) : Type 0 where
  pub port : IsPort c.port
  pub host : c.host ≢ ""
  pub read_timeout : pos 0 <ℤ c.read_timeout
  pub write_timeout : pos 0 <ℤ c.write_timeout

pub record IsValidDatabase (c : DatabaseConfig) : Type 0 where
  pub host : c.host ≢ ""
  pub port : IsPort c.port
  pub database : c.database ≢ ""
  pub user : c.user ≢ ""
  pub ssl_mode : IsOneOf c.ssl_mode ssl_modes
  pub max_connections : pos 0 <ℤ c.max_connections
  pub min_connections : (pos 0 ≤ℤ c.min_connections) × (c.min_connections ≤ℤ c.max_connections)

pub record IsValidRedis (c : RedisConfig) : Type 0 where
  pub when_enabled : c.enabled ≡ true → (c.addr ≢ "") × (pos 0 ≤ℤ c.db) × (pos 0 <ℤ c.pool_size)

pub record IsValidTelegram (c : TelegramConfig) : Type 0 where
  pub when_enabled : c.enabled ≡ true → (c.bot_token ≢ "") × (c.chat_id ≢ "")

pub record IsValidWorker (c : WorkerConfig) : Type 0 where
  pub pool_size : pos 0 <ℤ c.pool_size
  pub queue_size : pos 0 <ℤ c.queue_size
  pub job_timeout : pos 0 <ℤ c.job_timeout

server_iff : (c : ServerConfig) → (errors_of (server_complaints c) ≡ []) ↔ IsValidServer c
server_iff c = ground (
  arith,
  errors_of-empty (server_complaints c),
  IsPort-iff c.port,
  nonempty_iff c.host,
  positive_iff c.read_timeout,
  positive_iff c.write_timeout,
)

database_iff : (c : DatabaseConfig) → (errors_of (database_complaints c) ≡ []) ↔ IsValidDatabase c
database_iff c = ground (
  arith,
  errors_of-empty (database_complaints c),
  IsPort-iff c.port,
  nonempty_iff c.host,
  nonempty_iff c.database,
  nonempty_iff c.user,
  IsOneOf-iff c.ssl_mode ssl_modes,
  positive_iff c.max_connections,
)

redis_iff : (c : RedisConfig) → (errors_of (redis_complaints c) ≡ []) ↔ IsValidRedis c
redis_iff c =
    ground
      (arith, errors_of-empty (redis_complaints c), nonempty_iff c.addr, positive_iff c.pool_size)

telegram_iff : (c : TelegramConfig) → (errors_of (telegram_complaints c) ≡ []) ↔ IsValidTelegram c
telegram_iff c = ground (
  arith,
  errors_of-empty (telegram_complaints c),
  nonempty_iff c.bot_token,
  nonempty_iff c.chat_id,
)

worker_iff : (c : WorkerConfig) → (errors_of (worker_complaints c) ≡ []) ↔ IsValidWorker c
worker_iff c = ground (
  arith,
  errors_of-empty (worker_complaints c),
  positive_iff c.pool_size,
  positive_iff c.queue_size,
  positive_iff c.job_timeout,
)

module _ (texts : Texts) where
  pub record IsValidEmail (c : EmailConfig) : Type 0 where
    pub when_enabled :
        c.enabled ≡ true
        → (c.smtp_host ≢ "")
          × IsPort c.smtp_port
          × (c.from_address ≢ "")
          × (texts.has_at c.from_address ≡ true)

  -- A text that parses as an http or https URL with a host.
  pub record IsWebUrl (url : String) : Type 0 where
    pub present : url ≢ ""
    pub parsed : ParsedUrl
    pub parses : texts.parse_url url ≡ ok parsed
    pub web : (parsed.scheme ≡ "http") ⊎ (parsed.scheme ≡ "https")
    pub hosted : parsed.host ≢ ""

  pub record IsValidWebhook (c : WebhookConfig) : Type 0 where
    pub url : c.enabled ≡ true → IsWebUrl c.url
    pub timeout : c.enabled ≡ true → pos 0 <ℤ c.timeout

  pub record IsValidLogging (c : LoggingConfig) : Type 0 where
    pub level : IsOneOf (texts.to_lower c.level) levels
    pub format : IsOneOf (texts.to_lower c.format) formats

  pub record IsValidConfig (c : Config) : Type 0 where
    pub server : IsValidServer c.server
    pub database : IsValidDatabase c.database
    pub redis : IsValidRedis c.redis
    pub telegram : IsValidTelegram c.alert.telegram
    pub email : IsValidEmail c.alert.email
    pub webhook : IsValidWebhook c.alert.webhook
    pub worker : IsValidWorker c.worker
    pub logging : IsValidLogging c.logging

  email_iff : (c : EmailConfig) → (errors_of (email_complaints texts c) ≡ []) ↔ IsValidEmail c
  email_iff c = ground (
    arith,
    errors_of-empty (email_complaints texts c),
    nonempty_iff c.smtp_host,
    IsPort-iff c.smtp_port,
    nonempty_iff c.from_address,
  )

  IsWebUrl-sound : (url : String) → (webhook_url_complaint texts url).found ≡ false → IsWebUrl url
  unfolding webhook_url_complaint parsed_complaint
  IsWebUrl-sound url h = elim (Result-cases (texts.parse_url url)) [
    | inl (u, e) ↦ record {
      present = ground (arith, e, nonempty_iff url);
      parsed = u;
      parses = e;
      web = ground (arith, e, eq_iff u.scheme "http", eq_iff u.scheme "https");
      hosted = ground (arith, e, nonempty_iff u.host);
    }
    | inr (x, e) ↦ absurd (ground (arith, e))
  ]

  IsWebUrl-complete :
      (url : String) → IsWebUrl url → (webhook_url_complaint texts url).found ≡ false
  unfolding webhook_url_complaint parsed_complaint
  IsWebUrl-complete url h = elim h.web [
    | inl e ↦
        rw ((nonempty_iff url).1 h.present, h.parses, e, (nonempty_iff h.parsed.host).1 h.hosted)
          refl
    | inr e ↦
        rw ((nonempty_iff url).1 h.present, h.parses, e, (nonempty_iff h.parsed.host).1 h.hosted)
          refl
  ]

  webhook_iff :
      (c : WebhookConfig) → (errors_of (webhook_complaints texts c) ≡ []) ↔ IsValidWebhook c
  webhook_iff c =
      let found = errors_of-empty (webhook_complaints texts c) in
      (
        λ e. record {
          url = λ on. IsWebUrl-sound c.url (ground (arith, found, e, on));
          timeout = λ on. ground (arith, found, e, on);
        },
        λ h. elim (Bool-cases c.enabled) [
          | inl on ↦ ground (arith, found, on, h.timeout on, IsWebUrl-complete c.url (h.url on))
          | inr off ↦ ground (arith, found, off)
        ],
      )

  logging_iff :
      (c : LoggingConfig) → (errors_of (logging_complaints texts c) ≡ []) ↔ IsValidLogging c
  logging_iff c = ground (
    arith,
    errors_of-empty (logging_complaints texts c),
    IsOneOf-iff (texts.to_lower c.level) levels,
    IsOneOf-iff (texts.to_lower c.format) formats,
  )

  -- `Validate` reports no error exactly for a valid configuration: ports from 1 to 65535, texts
  -- that are required, positive timeouts, sizes and connection limits, a known mode of SSL, level and
  -- format of the log; and for Redis, Telegram, email and the webhook, only where they are enabled,
  -- what they need.
  pub validate_config_iff : (c : Config) → (validate texts c ≡ []) ↔ IsValidConfig c
  unfolding validate validate_alert
  validate_config_iff c =
      let alert =
        both_iff _ _ (both_iff _ _ (telegram_iff c.alert.telegram) (email_iff c.alert.email))
          (webhook_iff c.alert.webhook) in
      let storage =
        both_iff _ _ (both_iff _ _ (server_iff c.server) (database_iff c.database))
          (redis_iff c.redis) in
      let all =
        both_iff _ _ (both_iff _ _ (both_iff _ _ storage alert) (worker_iff c.worker))
          (logging_iff c.logging) in
      (
        λ e.
            let (((((s, d), r), ((t, m), w)), k), l) = all.0 e in
            record {
              server = s;
              database = d;
              redis = r;
              telegram = t;
              email = m;
              webhook = w;
              worker = k;
              logging = l;
            },
        λ v. all.1 (
          ((((v.server, v.database), v.redis), ((v.telegram, v.email), v.webhook)), v.worker),
          v.logging,
        ),
      )
