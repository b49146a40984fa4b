-- ===== src/ChannelAdapters/Email.antt =====
-- interface/alertchannel/email.go: alerts by SMTP.
-- crypto/tls, net/smtp, html/template and `strconv.Atoi` are parameters over the state `W` of the
-- world, which holds the connection.
use webtracker.Shared.{String, [], ◌∷◌}
use webtracker.Domain.Alert.{
  Alert, AlertType, AlertSeverity, Message, Details, downtime, recovery, ssl_expiring, ssl_expired,
  performance, info, warning, critical,
}
use webtracker.Resilience.AlertChannel.{Send}
use Prim.Native.String.{◌++◌ as concat}
use webtracker.Shared.Effects.{in_context}
use webtracker.ChannelAdapters.{required, type_text, severity_text, concat_all, send_attempts}
use webtracker.Shared.Int.{ℤ}
use webtracker.Shared.Clock.{Instant, Duration}
use webtracker.Shared.Errors.{Result}
use webtracker.Shared.Effects.{M, lift, context, ◌>>=◌, ◌>>◌}

-- The data of the template. The severity and the type are their texts.
pub record EmailData : Type 0 where
  pub subject : String
  pub severity : String
  pub type : String
  pub message : Message
  pub details : Details
  pub timestamp : Instant
  pub icon : String
  pub css_class : String

pub record Smtp (W : Type 0) : Type 0 where
  pub atoi : String → Result ℤ
  pub dial : String → ℤ → M W (Unit {0})
  pub close_conn : M W (Unit {0})
  pub new_client : String → M W (Unit {0})
  pub quit : M W (Unit {0})
  pub auth : String → String → String → M W (Unit {0})
  pub mail : String → M W (Unit {0})
  pub rcpt : String → M W (Unit {0})
  pub open_data : M W (Unit {0})
  pub write : String → M W (Unit {0})
  pub close_data : M W (Unit {0})
  pub execute_template : EmailData → Result String
  pub show_message : Message → String
  pub wait : Duration → M W (Unit {0})

-- `defer`, whose error is dropped.
abbrev pub deferred : {W A : Type 0} → M W (Unit {0}) → M W A → M W A
deferred last m w = let (result, w') = m w in (result, (last w').1)

module _ {W : Type 0} (smtp : Smtp W) where
  abbrev subject_prefix : AlertType → String
  subject_prefix downtime = "[CRITICAL] Monitor Down - "
  subject_prefix recovery = "[RECOVERY] Monitor Recovered - "
  subject_prefix ssl_expiring = "[SSL WARNING] Certificate Expiring - "
  subject_prefix ssl_expired = "[SSL CRITICAL] Certificate Expired - "
  subject_prefix performance = "[PERFORMANCE] Slow Response - "

  unfoldable pub generate_subject : Alert → String
  generate_subject a = concat (subject_prefix a.type) (smtp.show_message a.message)

  abbrev icon_of : AlertSeverity → String
  icon_of critical = "🔴"
  icon_of warning = "⚠\u{fe0f}"
  icon_of info = "ℹ\u{fe0f}"

  unfoldable pub generate_html_body : Alert → Result String
  unfolding generate_subject
  generate_html_body a = in_context "failed to execute email template" (
      smtp.execute_template (record {
        subject = generate_subject a;
        severity = severity_text a.severity;
        type = type_text a.type;
        message = a.message;
        details = a.details;
        timestamp = a.sent_at;
        icon = icon_of a.severity;
        css_class = severity_text a.severity;
      }))

  abbrev message_of : String → String → String → String → String
  message_of from_email to_email subject body = concat_all (
      "From: " ∷ from_email ∷ "\r\nTo: " ∷ to_email ∷ "\r\nSubject: " ∷ subject
      ∷ "\r\nMIME-Version: 1.0\r\nContent-Type: text/html; charset=UTF-8\r\n\r\n" ∷ body ∷ [])

  -- The email itself, once the server asked for it.
  unfoldable pub write_email : String → String → Alert → M W (Unit {0})
  unfolding generate_html_body generate_subject
  write_email from_email to_email alert = do
    body ← context "failed to generate email body" (lift (generate_html_body alert))
    context "failed to write email message"
        (smtp.write (message_of from_email to_email (generate_subject alert) body))

  unfoldable pub send_email :
      String → ℤ → String → String → String → String → Alert → M W (Unit {0})
  unfolding write_email
  send_email smtp_host smtp_port username password from_email to_email alert = do
    context "failed to connect to SMTP server" (smtp.dial smtp_host smtp_port)
    deferred smtp.close_conn (do
      context "failed to create SMTP client" (smtp.new_client smtp_host)
      deferred smtp.quit (do
        context "SMTP authentication failed" (smtp.auth username password smtp_host)
        context "failed to set sender" (smtp.mail from_email)
        context "failed to set recipient" (smtp.rcpt to_email)
        context "failed to get data writer" smtp.open_data
        deferred smtp.close_data (write_email from_email to_email alert)))

  unfoldable pub email_send : Send W
  unfolding required send_attempts
  email_send alert config = do
    smtp_host ← lift (required "smtp_host" "smtp_host is required in config" config)
    port_text ← lift (required "smtp_port" "smtp_port is required in config" config)
    smtp_port ← context "invalid smtp_port" (lift (smtp.atoi port_text))
    username ← lift (required "username" "username is required in config" config)
    password ← lift (required "password" "password is required in config" config)
    from_email ← lift (required "from_email" "from_email is required in config" config)
    to_email ← lift (required "to_email" "to_email is required in config" config)
    send_attempts smtp.wait
        (send_email smtp_host smtp_port username password from_email to_email alert)
        "failed to send email after 3 attempts"
