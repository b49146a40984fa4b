-- ===== src/Examples/Settings.antt =====
-- The default configuration, and configurations from an environment.
use webtracker.Config.{Config, default_config, load_from_env, database_from_env}
use webtracker.Config.Files.{Sources, has_env, lookup_env, load_from_file, substitute_env_vars}
use webtracker.Config.Loader.{load_config, base_config}
use webtracker.Config.Substitution.{unset_substitution}
use webtracker.Config.Precedence.{loaded_texts, text_settings, IsFrom}
use webtracker.Shared.{
  false, none, All, some, ◌≡◌, ◌≢◌, ◌↔◌, refl, true, String, [], ◌∷◌, if◌then◌else◌, str_eq,
}
use webtracker.Shared.Int.{ℤ}
use webtracker.Shared.Errors.{Result, ok, err, failure}
use webtracker.Config.{
  default_config, load_from_env, server_from_env, database_from_env, redis_from_env,
  telegram_from_env, email_from_env, webhook_from_env, worker_from_env, logging_from_env,
}
use webtracker.Config.Validation.{Texts, validate}
use webtracker.Config.Rules.{validate_config_iff, IsValidConfig}
use webtracker.Config.Environment.{accepted_env_complete}

abbrev texts : Texts
texts = record {
  to_lower = λ s. s;
  has_at = λ s. str_eq s "ops@example.com";
  parse_url = λ s. ok (record { scheme = "https"; host = "example.com" });
}

default_config_accepted : validate texts default_config ≡ []
unfolding validate
default_config_accepted = refl

validate_config_iff_example :
    (validate texts default_config ≡ []) ↔ IsValidConfig texts default_config
validate_config_iff_example = validate_config_iff texts default_config

abbrev get_env : String → String
get_env name =
    if str_eq name "TELEGRAM_BOT_TOKEN"
    then "t0k3n"
    else if str_eq name "TELEGRAM_CHAT_ID"
    then "42"
    else if str_eq name "SMTP_HOST"
    then "mail.example.com"
    else if str_eq name "SMTP_FROM_ADDRESS"
    then "ops@example.com"
    else ""

abbrev no_number : String → Result ℤ
no_number s = err (failure "invalid syntax")

accepted_env_complete_example :
    (get_env "TELEGRAM_BOT_TOKEN" ≢ "" → get_env "TELEGRAM_CHAT_ID" ≢ "")
    × (get_env "SMTP_HOST" ≢ ""
        → (get_env "SMTP_FROM_ADDRESS" ≢ "") × (texts.has_at (get_env "SMTP_FROM_ADDRESS") ≡ true))
unfolding validate load_from_env server_from_env database_from_env redis_from_env telegram_from_env
    email_from_env webhook_from_env worker_from_env logging_from_env
accepted_env_complete_example = accepted_env_complete get_env no_number texts refl

-- A token without a chat is refused.
lone_token_refused :
    validate texts (
      load_from_env
        (λ name. if str_eq name "TELEGRAM_BOT_TOKEN" then "t" else "")
        no_number
        (λ s. s))
    ≡ record {
      field = "alert.telegram.chat_id";
      message = "chat_id cannot be empty when Telegram is enabled";
    }
      ∷ []
unfolding validate load_from_env server_from_env database_from_env redis_from_env telegram_from_env
    email_from_env webhook_from_env worker_from_env logging_from_env
lone_token_refused = refl

abbrev file_config : Config
file_config = record default_config {
  database = record default_config.database { host = "db.example.com"; user = "tracker" };
}

-- DB_HOST is set, DB_USER is set to nothing, and all else is left to the file.
abbrev sources : Sources
sources = record {
  os_env = λ key.
      if str_eq key "DB_HOST"
      then some "localhost"
      else if str_eq key "DB_USER"
      then some ""
      else none;
  dot_env = λ key. none;
  exists = λ name. false;
  read_file = λ name. ok "";
  from_json = λ text c. err (failure "unexpected end of JSON input");
  from_yaml = λ text c. ok file_config;
  atoi = λ s. err (failure "atoi");
  to_lower = λ s. s;
}

loaded_texts_example :
    (c : Config) × (load_config sources "app.yaml" ≡ ok c)
    × All (IsFrom sources c file_config) text_settings
unfolding base_config load_from_file
loaded_texts_example = loaded_texts sources "app.yaml" file_config refl

abbrev user_of : Result Config → String
user_of (ok c) = c.database.user
user_of (err e) = ""

-- The file's user is lost to the default.
empty_variable : user_of (load_config sources "app.yaml") ≡ "postgres"
unfolding load_config load_from_env database_from_env has_env lookup_env
    webtracker.Config.Files.get_env
empty_variable = refl

abbrev secrets : Sources
secrets = record sources {
  os_env = λ key.
      if str_eq key "DB_PASSWORD"
      then some "pa$HOME"
      else if str_eq key "HOME"
      then some "/root"
      else none;
}

-- A `$` in a value that was put in is taken for a variable.
substituted_twice :
    substitute_env_vars secrets "{\"pass\": \"${DB_PASSWORD}\"}$" ≡ "{\"pass\": \"pa/root\"}$"
unfolding substitute_env_vars has_env lookup_env webtracker.Config.Files.get_env
substituted_twice = refl

unset_names_kept :
    substitute_env_vars sources "${}, ${OTHER, $9 and $OTHER_1." ≡ "${}, ${OTHER, $9 and $OTHER_1."
unfolding substitute_env_vars has_env lookup_env webtracker.Config.Files.get_env
unset_names_kept = refl

abbrev bare : Sources
bare = record sources { os_env = λ key. none }

bare_unset : (name : String) → webtracker.Config.Files.get_env bare name ≡ ""
unfolding webtracker.Config.Files.get_env lookup_env
bare_unset name = refl

unset_substitution_example : substitute_env_vars bare "${A} and $B" ≡ "${A} and $B"
unset_substitution_example = unset_substitution bare bare_unset "${A} and $B"
