-- ===== src/Examples/Checks.antt =====
-- Checks of a site with a certificate.
use webtracker.Shared.{ℕ, ◌+◌, refl, true, false, some, [], ◌∷◌}
use webtracker.Shared.Int.{pos}
use webtracker.Shared.Clock.{seconds, hours}
use webtracker.Shared.Errors.{ok}
use webtracker.Shared.Log.{Logged}
use webtracker.Domain.HealthCheck.{SslInfo}
use webtracker.HealthCheckService.{HealthCheckService, Response, Call, execute_check}
use webtracker.HealthCheckService.Order.{IsExecution, execute_check-IsExecution}
use webtracker.Examples.Data.{site}

abbrev certificate : SslInfo
certificate = record { valid = false; expires_at = hours 1; days_until = pos 0; issuer = "CA" }

abbrev page : Response
page = record {
  status_code = pos 200;
  tls = some (record {
    peer_certificates =
        record {
          not_before = hours 0;
          not_after = hours 50;
          subject_common_name = "example.com";
          dns_names = [];
          issuer_common_name = "";
          issuer_organization = "CA" ∷ [];
        }
        ∷ [];
    handshake_complete = true;
  });
}

-- The world is the clock, which goes on by 4 seconds at each reading.
abbrev service : HealthCheckService ℕ
service = record {
  clock = λ w. (w, w + seconds 4);
  new_id = λ w. ("h1", w);
  get_monitor = λ id w. (ok site, w);
  create_check = λ c w. (ok tt, w);
  delete_key = λ k w. (ok tt, w);
  new_request = λ url. ok tt;
  send = λ url w. (ok page, w + seconds 2);
  wait = λ d w. (true, w);
  is_timeout = λ e. false;
  error_text = λ e. "error";
  days_in = λ d. pos 2;
  retry_config = record { max_attempts = pos 3; initial_delay = pos (seconds 1) };
  performance_threshold = pos (seconds 5);
  performance_alert = some (λ m rt t w. (ok tt, w));
  broadcast_update = some (λ c w. w);
}

abbrev before : Logged ℕ Call
before = record { world = hours 2; log = [] }

execute_check-IsExecution_example :
    IsExecution service site "m1" []
      (execute_check service "m1" before).1.log
      (execute_check service "m1" before).0
execute_check-IsExecution_example = execute_check-IsExecution service "m1" site before refl
