-- ===== src/Domain/Monitor.antt =====
-- domain/monitor.go: monitors and their validation. `url.Parse` is a parameter.
use webtracker.Shared.{
  inr, ◌↔◌, inl, ◌≡◌, Bool, true, false, ◌||◌, not, List, String, arith, str_eq, eq_iff, ◌⊎◌,
}
use webtracker.Shared.Int.{pos, eqb_ℤ}
use webtracker.Shared.Clock.{Instant, Duration, minutes}
use webtracker.Shared.Errors.{Result-cases, Result, Outcome, ok, err, failure}
use webtracker.Domain.Alert.{AlertChannelType}

pub record AlertChannel : Type 0 where
  pub type : AlertChannelType
  pub config : List (String × String)

pub record Monitor : Type 0 where
  pub id : String
  pub name : String
  pub url : String
  pub check_interval : Duration
  pub enabled : Bool
  pub alert_channels : List AlertChannel
  pub created_at : Instant
  pub updated_at : Instant

-- The parts of `*url.URL` that are read.
pub record ParsedUrl : Type 0 where
  pub scheme : String
  pub host : String

-- `if err := first; err != nil { return err }` and then the rest.
abbrev pub then_check : Outcome → Outcome → Outcome
then_check (ok _) rest = rest
then_check (err e) rest = err e

abbrev pub require : Bool → String → Outcome
require true text = ok tt
require false text = err (failure text)

unfoldable pub validate_check_interval : Duration → Outcome
validate_check_interval interval =
    require
      (eqb_ℤ interval (pos (minutes 1))
        || eqb_ℤ interval (pos (minutes 5))
        || eqb_ℤ interval (pos (minutes 15))
        || eqb_ℤ interval (pos (minutes 60)))
      "check interval must be 1, 5, 15, or 60 minutes"

module _ (parse_url : String → Result ParsedUrl) where
  validate_parsed : Result ParsedUrl → Outcome
  validate_parsed (err e) = err (failure "invalid URL format")
  validate_parsed (ok url) =
      then_check
        (require (str_eq url.scheme "http" || str_eq url.scheme "https")
          "URL must use http or https scheme")
        (require (not (str_eq url.host "")) "URL must have a valid host")

  unfoldable pub validate_url : String → Outcome
  unfolding validate_parsed
  validate_url url =
      then_check (require (not (str_eq url "")) "URL is required") (validate_parsed (parse_url url))

  unfoldable pub validate : Monitor → Outcome
  validate m =
      then_check (require (not (str_eq m.name "")) "monitor name is required")
        (then_check (validate_url m.url) (validate_check_interval m.check_interval))

  -- What a valid monitor is, with no order among the rules.
  pub record IsValidMonitor (m : Monitor) : Type 0 where
    pub named : str_eq m.name "" ≡ false
    pub has_url : str_eq m.url "" ≡ false
    pub parsed : ParsedUrl
    pub parses : parse_url m.url ≡ ok parsed
    pub web : (parsed.scheme ≡ "http") ⊎ (parsed.scheme ≡ "https")
    pub hosted : str_eq parsed.host "" ≡ false
    pub interval :
        (m.check_interval ≡ pos (minutes 1))
        ⊎ (m.check_interval ≡ pos (minutes 5))
        ⊎ (m.check_interval ≡ pos (minutes 15))
        ⊎ (m.check_interval ≡ pos (minutes 60))

  pub validate_complete : (m : Monitor) → IsValidMonitor m → validate m ≡ ok tt
  unfolding validate validate_url validate_check_interval
  validate_complete m v =
      ground (arith, eq_iff v.parsed.scheme "http", eq_iff v.parsed.scheme "https")

  web_scheme :
      (s : String) → (str_eq s "http" || str_eq s "https") ≡ true → (s ≡ "http") ⊎ (s ≡ "https")
  web_scheme s h = ground (arith, eq_iff s "http", eq_iff s "https")

  parsed_sound : (m : Monitor) → validate m ≡ ok tt → (u : ParsedUrl) × (parse_url m.url ≡ ok u)
  unfolding validate validate_url
  parsed_sound m h = elim (Result-cases (parse_url m.url)) [
    | inl (u, e) ↦ (u, e)
    | inr (x, e) ↦ absurd (ground (arith, e))
  ]

  interval_sound :
      (d : Duration)
      → validate_check_interval d ≡ ok tt
      → (d ≡ pos (minutes 1))
        ⊎ (d ≡ pos (minutes 5))
        ⊎ (d ≡ pos (minutes 15))
        ⊎ (d ≡ pos (minutes 60))
  unfolding validate_check_interval
  interval_sound d h = ground arith

  validate_sound : (m : Monitor) → validate m ≡ ok tt → IsValidMonitor m
  unfolding validate validate_url
  validate_sound m h =
      let (u, e) = parsed_sound m h in
      record {
        named = ground arith;
        has_url = ground arith;
        parsed = u;
        parses = e;
        web = web_scheme u.scheme (ground (arith, e));
        hosted = ground (arith, e);
        interval = interval_sound m.check_interval (ground (arith, e));
      }

  -- `Validate` accepts exactly the monitors that have a name, an http or https URL with a host,
  -- and an interval of 1, 5, 15 or 60 minutes.
  pub validate_iff : (m : Monitor) → (validate m ≡ ok tt) ↔ IsValidMonitor m
  validate_iff m = (validate_sound m, validate_complete m)
