-- ===== src/ChannelAdapters.antt =====
-- interface/alertchannel/telegram.go and webhook.go, and what email.go shares with them: adapters
-- that send an alert by an HTTP request, and their three attempts.
-- net/http, encoding/json, package strings, the printing of numbers, times and messages, and the
-- wait between attempts are parameters over the state `W` of the world.
pub mod Email
use webtracker.Shared.{
  ℕ, zero, suc, ◌+◌, ◌-◌, ◌*◌, ◌/◌, ◌%◌, ◌^◌, ◌≤◌, ◌<◌, ◌≡◌, ◌≢◌, ◌↔◌, ◌⊎◌, inl, inr, refl, sym, ap,
  ◌∙◌, Bool, true, false, not, ◌&&◌, ◌||◌, Option, none, some, String, List, [], ◌∷◌, ◌++◌, map,
  if◌then◌else◌, ltb, leb, ◌==◌, length, tally, All, any, is_empty, arith, length-append, str_eq,
  eq_iff, str_eq_ne, str_eq_refl, Bool-cases, Option-cases, ltb→lt, leb→le, lt→ltb,
}
use webtracker.Domain.Alert.{
  Alert, AlertType, AlertSeverity, AlertChannelType, Message, Details, downtime, recovery,
  ssl_expiring, ssl_expired, performance, info, warning, critical, down_details, recovery_details,
  ssl_details, performance_details,
}
use webtracker.Resilience.AlertChannel.{Send}
use Prim.Native.String.{◌++◌ as concat}
use webtracker.Shared.Dict.{lookup}
use webtracker.WebSocket.Manager.{milliseconds}
use webtracker.Shared.Int.{ℤ, pos, negsuc, ltb_ℤ, leb_ℤ, eqb_ℤ, div_int64, add_int64, incr}
use webtracker.Shared.Clock.{Instant, Duration, minutes, hours, seconds}
use webtracker.Shared.Errors.{Error, Result, Outcome, ok, err, failure, wrapped, Result-cases}
use webtracker.Shared.Effects.{M, pure, fail, lift, context, attempt, ignored, ◌>>=◌, ◌>>◌}

abbrev pub Settings : Type 0
Settings = List (String × String)

-- `value, ok := config[key]; if !ok || value == "" { return … }`
unfoldable pub required : String → String → Settings → Result String
required key text config = elim (lookup key config) [
  | none ↦ err (failure text)
  | some value ↦ if str_eq value "" then err (failure text) else ok value
]

abbrev pub type_text : AlertType → String
type_text downtime = "downtime"
type_text recovery = "recovery"
type_text ssl_expiring = "ssl_expiring"
type_text ssl_expired = "ssl_expired"
type_text performance = "performance"

abbrev pub severity_text : AlertSeverity → String
severity_text info = "info"
severity_text warning = "warning"
severity_text critical = "critical"

module _ {W : Type 0} (wait : Duration → M W (Unit {0})) (send : M W (Unit {0}))
    (text : String) where
  -- Before every attempt but the first: 1s, 2s. The wait ends with an error if the context does.
  unfoldable pub pause : ℕ → M W (Unit {0})
  pause zero = pure tt
  pause (suc n) = wait (pos (seconds (2 ^ n)))

  abbrev or_else : Outcome → (Error → M W (Unit {0})) → M W (Unit {0})
  or_else (ok _) retry = pure tt
  or_else (err e) retry = retry e

  -- An attempt, and as many more as are left while none succeeds.
  unfoldable pub send_from : ℕ → ℕ → M W (Unit {0})
  unfolding pause
  send_from zero n = do pause n; result ← attempt send; or_else result (λ e. fail (wrapped text e))
  send_from (suc left) n = do
    pause n
    result ← attempt send
    or_else result (λ e. send_from left (suc n))

  unfoldable pub send_attempts : M W (Unit {0})
  unfolding send_from
  send_attempts = send_from 2 0

pub record WebhookPayload : Type 0 where
  pub id : String
  pub monitor_id : String
  pub type : String
  pub severity : String
  pub message : Message
  pub sent_at : Instant
  pub channels : List AlertChannelType
  pub details : Details
  pub timestamp : Instant

-- What is encoded to JSON. The details of an alert are never empty.
pub data Payload : Type 0 where
  telegram_payload : (chat_id text parse_mode : String) → Payload
  webhook_payload : WebhookPayload → Payload

pub record HttpRequest : Type 0 where
  pub url : String
  pub body : String
  pub headers : Settings

pub record HttpResponse : Type 0 where
  pub status_code : ℤ
  pub body : String

-- `set_header` is `Header.Set`, and `after_prefix` is `strings.TrimPrefix` where `strings.HasPrefix`.
pub record Http (W : Type 0) : Type 0 where
  pub marshal : Payload → Result String
  pub new_request : HttpRequest → Outcome
  pub set_header : String → String → Settings → Settings
  pub client_do : HttpRequest → M W HttpResponse
  pub after_prefix : String → String → Option String
  pub show_int : ℤ → String
  pub show_time : Instant → String
  pub show_message : Message → String
  pub wait : Duration → M W (Unit {0})

abbrev pub concat_all : List String → String
concat_all [] = ""
concat_all (s ∷ l) = concat s (concat_all l)

module _ {W : Type 0} (http : Http W) where
  abbrev unless_empty : String → String → List String
  unless_empty label s = if str_eq s "" then [] else label ∷ s ∷ "\n" ∷ []

  abbrev response_line : Duration → List String
  response_line d = "Response Time: " ∷ http.show_int (milliseconds d) ∷ "ms\n" ∷ []

  -- Which of the keys `url`, `status_code`, `error_message`, `response_time`, `days_until` and
  -- `issuer` an alert's details have.
  unfoldable pub detail_lines : Details → List String
  detail_lines (down_details url code error at) =
      ("URL: " ∷ url ∷ "\nStatus Code: " ∷ http.show_int code ∷ "\n" ∷ [])
      ++ unless_empty "Error: " error
  detail_lines (recovery_details url code time at) =
      ("URL: " ∷ url ∷ "\nStatus Code: " ∷ http.show_int code ∷ "\n" ∷ []) ++ response_line time
  detail_lines (ssl_details url expires days issuer valid) =
      ("URL: " ∷ url ∷ "\nDays Until Expiration: " ∷ http.show_int days ∷ "\n" ∷ [])
      ++ unless_empty "Issuer: " issuer
  detail_lines (performance_details url time threshold at) =
      ("URL: " ∷ url ∷ "\n" ∷ []) ++ response_line time

  abbrev severity_line : AlertSeverity → String
  severity_line critical = "🔴 *CRITICAL*\n"
  severity_line warning = "⚠\u{fe0f} *WARNING*\n"
  severity_line info = "ℹ\u{fe0f} *INFO*\n"

  unfoldable pub format_message : Alert → String
  unfolding detail_lines
  format_message a = concat_all (
      (severity_line a.severity
        ∷ "*Type:* "
        ∷ type_text a.type
        ∷ "\n\n"
        ∷ http.show_message a.message
        ∷ "\n\n*Details:*\n"
        ∷ [])
      ++ (detail_lines a.details ++ ("\n*Time:* " ∷ http.show_time a.sent_at ∷ [])))

  abbrev is_success : ℤ → Bool
  is_success code = not (ltb_ℤ code (pos 200) || leb_ℤ (pos 300) code)

  unfoldable pub send_message : String → String → String → M W (Unit {0})
  send_message bot_token chat_id message = do
    body ←
        context "failed to marshal telegram payload"
          (lift (http.marshal (telegram_payload chat_id message "Markdown")))
    let request : HttpRequest = record {
      url = concat "https://api.telegram.org/bot" (concat bot_token "/sendMessage");
      body = body;
      headers = http.set_header "Content-Type" "application/json" [];
    }
    context "failed to create telegram request" (lift (http.new_request request))
    response ← context "failed to send telegram request" (http.client_do request)
    if is_success response.status_code
        then pure tt
        else fail (
            failure (
              concat_all (
                "telegram API returned status "
                ∷ http.show_int response.status_code
                ∷ ": "
                ∷ response.body
                ∷ [])))

  unfoldable pub telegram_send : Send W
  unfolding required send_attempts
  telegram_send alert config = do
    bot_token ← lift (required "bot_token" "telegram bot_token is required in config" config)
    chat_id ← lift (required "chat_id" "telegram chat_id is required in config" config)
    send_attempts http.wait (send_message bot_token chat_id (format_message alert))
        "failed to send telegram message after 3 attempts"

  unfoldable pub create_payload : Alert → WebhookPayload
  create_payload a = record {
    id = a.id;
    monitor_id = a.monitor_id;
    type = type_text a.type;
    severity = severity_text a.severity;
    message = a.message;
    sent_at = a.sent_at;
    channels = a.channels;
    details = a.details;
    timestamp = a.sent_at;
  }

  abbrev set_custom : Option String → String → Settings → Settings
  set_custom none value headers = headers
  set_custom (some name) value headers = http.set_header name value headers

  -- The settings whose keys start with `header_`.
  unfoldable pub custom_headers : Settings → Settings → Settings
  custom_headers [] headers = headers
  custom_headers ((key, value) ∷ config) headers =
      custom_headers config (set_custom (http.after_prefix "header_" key) value headers)

  unfoldable pub send_webhook : String → Alert → Settings → M W (Unit {0})
  unfolding create_payload custom_headers
  send_webhook url alert config = do
    body ←
        context "failed to marshal webhook payload"
          (lift (http.marshal (webhook_payload (create_payload alert))))
    let headers =
        http.set_header "User-Agent" "uptime-monitor/1.0"
          (http.set_header "Content-Type" "application/json" [])
    let request : HttpRequest = record {
      url = url;
      body = body;
      headers = custom_headers config headers;
    }
    context "failed to create webhook request" (lift (http.new_request request))
    response ← context "failed to send webhook request" (http.client_do request)
    if is_success response.status_code
        then pure tt
        else fail (failure (concat "webhook returned status " (http.show_int response.status_code)))

  unfoldable pub webhook_send : Send W
  unfolding required send_attempts
  webhook_send alert config = do
    url ← lift (required "webhook_url" "webhook_url is required in config" config)
    send_attempts http.wait (send_webhook url alert config)
        "failed to send webhook after 3 attempts"
