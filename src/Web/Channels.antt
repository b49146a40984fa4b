-- ===== src/Web/Channels.antt =====
-- form_handlers.go with the adapters of interface/alertchannel: what becomes of the channels of a
-- monitor that a form sets up.
use webtracker.Shared.{
  ◌≡◌, ◌≢◌, inl, inr, refl, Bool, true, false, String, List, [], ◌∷◌, ◌++◌, All, arith, str_eq,
  eq_iff, Bool-cases,
}
use webtracker.Shared.Errors.{err, failure}
use webtracker.Shared.Dict.{lookup}
use webtracker.Domain.Monitor.{AlertChannel}
use webtracker.Domain.Alert.{Alert, channel_telegram, channel_email, channel_webhook}
use webtracker.Web.Forms.{is_on, telegram_channel, simple_channel, parse_alert_channels}
use webtracker.ChannelAdapters.{
  Http, required, telegram_send, webhook_send, send_attempts, send_message, format_message,
}
use webtracker.ChannelAdapters.Email.{Smtp, email_send}

module _ {W : Type 0} (http : Http W) (smtp : Smtp W) (form : String → String) where
  -- What sending an alert to a channel comes to: attempts with the settings of the form, or an
  -- error before anything is sent.
  pub data Fate (c : AlertChannel) : Type 0 where
    attempts :
        c.type ≡ channel_telegram
        → form "telegram_bot_token" ≢ ""
        → form "telegram_chat_id" ≢ ""
        → ((alert : Alert) (w : W)
            → telegram_send http alert c.config w
              ≡ send_attempts http.wait
                  (send_message http
                    (form "telegram_bot_token")
                    (form "telegram_chat_id")
                    (format_message http alert))
                  "failed to send telegram message after 3 attempts"
                  w)
        → Fate c
    refused_email :
        c.type ≡ channel_email
        → ((alert : Alert) (w : W)
            → email_send smtp alert c.config w
              ≡ (err (failure "smtp_host is required in config"), w))
        → Fate c
    refused_webhook :
        c.type ≡ channel_webhook
        → ((alert : Alert) (w : W)
            → webhook_send http alert c.config w
              ≡ (err (failure "webhook_url is required in config"), w))
        → Fate c

  All-append :
      (P : AlertChannel → Type 0) (xs ys : List AlertChannel)
      → All P xs
      → All P ys
      → All P (xs ++ ys)
  All-append P [] ys h k = k
  All-append P (x ∷ xs) ys (p, h) k = (p, All-append P xs ys h k)

  complete-Fate :
      str_eq (form "telegram_bot_token") "" ≡ false
      → str_eq (form "telegram_chat_id") "" ≡ false
      → Fate (record {
        type = channel_telegram;
        config =
            ("bot_token", form "telegram_bot_token") ∷ ("chat_id", form "telegram_chat_id") ∷ [];
      })
  unfolding telegram_send required lookup
  complete-Fate e f =
      attempts refl (λ g. ground (arith, eq_iff (form "telegram_bot_token") "", g, e))
        (λ g. ground (arith, eq_iff (form "telegram_chat_id") "", g, f)) (λ alert w. rw (e, f) refl)

  telegram-Fate : All Fate (telegram_channel form)
  unfolding telegram_channel
  telegram-Fate = elim (Bool-cases (is_on (form "telegram_enabled"))) [
    | inr e ↦ rw e tt
    | inl e ↦ elim (Bool-cases (str_eq (form "telegram_bot_token") "")) [
      | inl f ↦ rw (e, f) tt
      | inr f ↦ elim (Bool-cases (str_eq (form "telegram_chat_id") "")) [
        | inl g ↦ rw (e, f, g) tt
        | inr g ↦ rw (e, f, g) (complete-Fate f g, tt)
      ]
    ]
  ]

  email-Fate :
      (enabled : Bool) (value : String) → All Fate (simple_channel channel_email "to" enabled value)
  unfolding simple_channel email_send required lookup
  email-Fate false value = tt
  email-Fate true value = elim (Bool-cases (str_eq value "")) [
    | inl e ↦ rw e tt
    | inr e ↦ rw e (refused_email refl (λ alert w. refl), tt)
  ]

  webhook-Fate :
      (enabled : Bool) (value : String)
      → All Fate (simple_channel channel_webhook "url" enabled value)
  unfolding simple_channel webhook_send required lookup
  webhook-Fate false value = tt
  webhook-Fate true value = elim (Bool-cases (str_eq value "")) [
    | inl e ↦ rw e tt
    | inr e ↦ rw e (refused_webhook refl (λ alert w. refl), tt)
  ]

  -- Of the channels that a form sets up, those of type telegram are sent to with the token and the
  -- chat of the form, neither of them empty. A channel of type email or webhook is refused by its
  -- adapter, whatever the alert, before anything is sent: the form stores the settings under other
  -- keys than the adapters read.
  pub form_channels-Fate : All Fate (parse_alert_channels form)
  unfolding parse_alert_channels
  form_channels-Fate = All-append Fate (telegram_channel form) _ telegram-Fate (
      All-append Fate
        (simple_channel channel_email "to" (is_on (form "email_enabled")) (form "email_to")) _
        (email-Fate (is_on (form "email_enabled")) (form "email_to"))
        (webhook-Fate (is_on (form "webhook_enabled")) (form "webhook_url")))
