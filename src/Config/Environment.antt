-- ===== src/Config/Environment.antt =====
-- config.go and validation.go: what the environment has to set.
use webtracker.Shared.{◌≡◌, ◌≢◌, true, String, [], str_eq_ne, eq_iff, arith, inl, inr}
use webtracker.Shared.Int.{ℤ}
use webtracker.Shared.Errors.{Result, Result-cases}
use webtracker.Config.{load_from_env, telegram_from_env, email_from_env, default_alert}
use webtracker.Config.Validation.{Texts, validate}
use webtracker.Config.Rules.{validate_config_iff}

module _ (get_env : String → String) (atoi : String → Result ℤ) (texts : Texts) where
  telegram_enabled :
      get_env "TELEGRAM_BOT_TOKEN" ≢ ""
      → let c = telegram_from_env get_env atoi texts.to_lower default_alert.telegram in
        (c.enabled ≡ true) × (c.chat_id ≡ get_env "TELEGRAM_CHAT_ID")
  unfolding telegram_from_env
  telegram_enabled h =
      ground (
        arith,
        str_eq_ne (get_env "TELEGRAM_BOT_TOKEN") "" h,
        eq_iff (get_env "TELEGRAM_CHAT_ID") "",
      )

  email_enabled :
      get_env "SMTP_HOST" ≢ ""
      → let c = email_from_env get_env atoi texts.to_lower default_alert.email in
        (c.enabled ≡ true) × (c.from_address ≡ get_env "SMTP_FROM_ADDRESS")
  unfolding email_from_env
  email_enabled h = elim (Result-cases (atoi (get_env "SMTP_PORT"))) [
    | inl (n, e) ↦
        ground
          (arith, e, str_eq_ne (get_env "SMTP_HOST") "" h, eq_iff (get_env "SMTP_FROM_ADDRESS") "")
    | inr (x, e) ↦
        ground
          (arith, e, str_eq_ne (get_env "SMTP_HOST") "" h, eq_iff (get_env "SMTP_FROM_ADDRESS") "")
  ]

  -- If the configuration that the environment gives is accepted, then a Telegram token comes with a
  -- chat, and a mail server with an address to send from.
  pub accepted_env_complete :
      validate texts (load_from_env get_env atoi texts.to_lower) ≡ []
      → (get_env "TELEGRAM_BOT_TOKEN" ≢ "" → get_env "TELEGRAM_CHAT_ID" ≢ "")
        × (get_env "SMTP_HOST" ≢ ""
            → (get_env "SMTP_FROM_ADDRESS" ≢ "")
              × (texts.has_at (get_env "SMTP_FROM_ADDRESS") ≡ true))
  unfolding load_from_env
  accepted_env_complete e =
      let v = (validate_config_iff texts (load_from_env get_env atoi texts.to_lower)).0 e in
      (
        λ set. let (on, chat) = telegram_enabled set in rw (← chat) (v.telegram.when_enabled on).1,
        λ set.
            let (on, from) = email_enabled set in
            let (host, port, address, sign) = v.email.when_enabled on in
            rw (← from) (address, sign),
      )
