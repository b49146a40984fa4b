-- ===== src/Examples/Data.antt =====
-- Inputs that the examples share.
use webtracker.Shared.{true, none, [], ◌∷◌}
use webtracker.Shared.Int.{pos}
use webtracker.Shared.Clock.{seconds, minutes, hours}
use webtracker.Domain.Alert.{
  Alert, downtime, critical, is_down, down_details, channel_email, channel_telegram,
}
use webtracker.Domain.HealthCheck.{HealthCheck, status_failure}
use webtracker.Domain.Monitor.{Monitor, AlertChannel}

abbrev pub email : AlertChannel
email = record { type = channel_email; config = ("to", "ops@example.com") ∷ [] }

abbrev pub telegram : AlertChannel
telegram = record { type = channel_telegram; config = [] }

abbrev pub site : Monitor
site = record {
  id = "m1";
  name = "site";
  url = "https://example.com";
  check_interval = pos (minutes 5);
  enabled = true;
  alert_channels = email ∷ telegram ∷ [];
  created_at = hours 1;
  updated_at = hours 1;
}

abbrev pub failed_check : HealthCheck
failed_check = record {
  id = "h1";
  monitor_id = "m1";
  status = status_failure;
  status_code = pos 503;
  response_time = pos (seconds 1);
  ssl_info = none;
  error_message = "";
  checked_at = hours 2;
}

abbrev pub down_alert : Alert
down_alert = record {
  id = "a1";
  monitor_id = "m1";
  type = downtime;
  severity = critical;
  message = is_down "site";
  details = down_details "https://example.com" (pos 503) "" (hours 2);
  sent_at = hours 2;
  channels = channel_email ∷ channel_telegram ∷ [];
}
