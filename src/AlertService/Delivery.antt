-- ===== src/AlertService/Delivery.antt =====
-- alert_service.go: the delivery of alerts, and the four operations that generate an alert and
-- deliver it.
use webtracker.Shared.{
  ℕ, suc, ◌<◌, ◌≡◌, refl, Bool, true, false, ◌&&◌, ◌||◌, Option, none, some, String, List, [], ◌∷◌,
  if◌then◌else◌, is_empty, length, ltb, ◌==◌, any, arith, ◌↔◌, Bool-cases, inl, inr,
}
use webtracker.Shared.Int.{ℤ, pos}
use webtracker.Shared.Clock.{Duration}
use webtracker.Shared.Errors.{Error, Outcome, ok, err, failure, wrapped}
use webtracker.Shared.Effects.{M, pure, fail, context, ◌>>=◌, ◌>>◌}
use webtracker.Shared.Log.{Logged, quiet, reading}
use webtracker.Domain.Alert.{Alert}
use webtracker.Domain.HealthCheck.{HealthCheck, SslInfo}
use webtracker.Domain.Monitor.{Monitor, AlertChannel}
use webtracker.Resilience.AlertChannel.{DeliveryResult}
use webtracker.AlertService.{
  AlertService, Call, generate_downtime_alert, generate_recovery_alert,
  generate_ssl_expiration_alert, generate_performance_alert,
}

-- The loop over the results: how many succeeded, and the error of the last that did not.
tally : List DeliveryResult → ℕ → Outcome → ℕ × Outcome
tally [] n last = (n, last)
tally (r ∷ rs) n last =
    tally rs (if r.success then suc n else n) (if r.success then last else r.error)

-- `fmt.Errorf("…: %w", lastError)`.
abbrev no_delivery : Outcome → Error
no_delivery (ok _) = failure "failed to deliver alert to any channel, last error: %!w(<nil>)"
no_delivery (err e) = wrapped "failed to deliver alert to any channel, last error" e

unfoldable pub judge : List DeliveryResult → Outcome
unfolding tally
judge results =
    let (count, last) = tally results 0 (ok tt) in
    if count == 0 && ltb 0 (length results) then err (no_delivery last) else ok tt

module _ {W : Type 0} (svc : AlertService W) where
  deliver_by :
      Option (Alert → List AlertChannel → W → List DeliveryResult × W)
      → Alert
      → List AlertChannel
      → M (Logged W Call) (Unit {0})
  deliver_by none alert channels = fail (failure "delivery service not configured")
  deliver_by (some f) alert channels =
      if is_empty channels
      then pure tt
      else (do results ← reading (f alert channels); λ s. (judge results, s))

  unfoldable pub deliver_alert : Alert → List AlertChannel → M (Logged W Call) (Unit {0})
  unfolding deliver_by
  deliver_alert alert channels = deliver_by svc.deliver alert channels

  deliver_latest : Monitor → List Alert → M (Logged W Call) (Unit {0})
  deliver_latest monitor [] = fail (failure "no alert found after generation")
  deliver_latest monitor (alert ∷ _) = deliver_alert alert monitor.alert_channels

  -- The shape of the four operations.
  generate_and_deliver :
      String → Monitor → M (Logged W Call) (Unit {0}) → M (Logged W Call) (Unit {0})
  unfolding deliver_latest
  generate_and_deliver text monitor generate = do
    context text generate
    alerts ← context "failed to get latest alert" (quiet (svc.get_alerts monitor.id (pos 1)))
    deliver_latest monitor alerts

  unfoldable pub generate_and_deliver_downtime_alert :
      Monitor → HealthCheck → M (Logged W Call) (Unit {0})
  unfolding generate_and_deliver
  generate_and_deliver_downtime_alert monitor check =
      generate_and_deliver "failed to generate downtime alert" monitor
        (generate_downtime_alert svc monitor check)

  unfoldable pub generate_and_deliver_recovery_alert :
      Monitor → HealthCheck → M (Logged W Call) (Unit {0})
  unfolding generate_and_deliver
  generate_and_deliver_recovery_alert monitor check =
      generate_and_deliver "failed to generate recovery alert" monitor
        (generate_recovery_alert svc monitor check)

  unfoldable pub generate_and_deliver_ssl_expiration_alert :
      Monitor → Option SslInfo → M (Logged W Call) (Unit {0})
  unfolding generate_and_deliver
  generate_and_deliver_ssl_expiration_alert monitor ssl =
      generate_and_deliver "failed to generate SSL expiration alert" monitor
        (generate_ssl_expiration_alert svc monitor ssl)

  unfoldable pub generate_and_deliver_performance_alert :
      Monitor → Duration → Duration → M (Logged W Call) (Unit {0})
  unfolding generate_and_deliver
  generate_and_deliver_performance_alert monitor response_time threshold =
      generate_and_deliver "failed to generate performance alert" monitor
        (generate_performance_alert svc monitor response_time threshold)

  unfoldable pub get_alert_history : String → ℤ → M (Logged W Call) (List Alert)
  get_alert_history id limit = quiet (svc.get_alerts id limit)

abbrev pub succeeded : DeliveryResult → Bool
succeeded r = r.success

tally_pos : (rs : List DeliveryResult) (n : ℕ) (e : Outcome) → 0 < n → 0 < (tally rs n e).0
unfolding tally
tally_pos [] n e h = h
tally_pos (r ∷ rs) n e h = tally_pos rs _ _ (ground arith)

tally-any :
    (rs : List DeliveryResult) (n : ℕ) (e : Outcome)
    → any succeeded rs ≡ true
    → 0 < (tally rs n e).0
unfolding tally
tally-any [] n e h = cc
tally-any (r ∷ rs) n e h = elim (Bool-cases r.success) [
  | inl yes_ ↦ tally_pos rs _ _ (rw yes_ (omega arith))
  | inr no_ ↦ tally-any rs _ _ (ground arith)
]

tally_none :
    (rs : List DeliveryResult) (n : ℕ) (e : Outcome)
    → any succeeded rs ≡ false
    → (tally rs n e).0 ≡ n
unfolding tally
tally_none [] n e h = refl
tally_none (r ∷ rs) n e h = ground (arith, tally_none rs n r.error)

-- A delivery counts as a success exactly if it reached one channel or more, or there were none.
pub judge_iff :
    (results : List DeliveryResult)
    → (judge results ≡ ok tt) ↔ ((any succeeded results || is_empty results) ≡ true)
unfolding judge
judge_iff [] = ground arith
judge_iff (r ∷ rs) = ground (arith, tally-any (r ∷ rs) 0 (ok tt), tally_none (r ∷ rs) 0 (ok tt))
