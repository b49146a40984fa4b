-- ===== src/HealthCheckService/Verdict.antt =====
-- healthcheck_service.go: which answers count as a success.
use webtracker.Shared.{◌≡◌, ◌↔◌, true, Option, none, some, arith}
use webtracker.Shared.Int.{ℤ, pos, ◌≤ℤ◌}
use webtracker.Domain.HealthCheck.{HealthCheck, SslInfo, is_successful}
use webtracker.HealthCheckService.{classify_status_code, answered}

abbrev pub CertificateFine : Option SslInfo → Type 0
CertificateFine none = Unit {0}
CertificateFine (some ssl) = ssl.valid ≡ true

-- An answered request is a success exactly if the status code is from 200 to 299 and the
-- certificate, where there is one, is valid.
pub answered_success_iff :
    (check : HealthCheck) (code : ℤ) (ssl : Option SslInfo)
    → (is_successful (answered check code ssl) ≡ true)
      ↔ ((pos 200 ≤ℤ code) × (code ≤ℤ pos 299) × CertificateFine ssl)
unfolding answered classify_status_code
answered_success_iff check code none = ground arith
answered_success_iff check code (some ssl) = ground arith
