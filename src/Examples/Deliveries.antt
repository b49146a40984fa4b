-- ===== src/Examples/Deliveries.antt =====
-- Two channels, of which the second finishes first and the first has no adapter.
use webtracker.Shared.{ℕ, suc, false, true, List, [], ◌∷◌}
use webtracker.Shared.Errors.{ok, err, failure}
use webtracker.Domain.Alert.{channel_email}
use webtracker.Domain.Monitor.{AlertChannel}
use webtracker.Resilience.AlertChannel.{Send, DeliveryResult}
use webtracker.AlertDelivery.{Adapters}

abbrev sends : Send ℕ
sends alert config w = (ok tt, suc w)

abbrev adapters : Adapters ℕ
adapters = (channel_email, sends) ∷ []

abbrev missing : DeliveryResult
missing = record {
  channel = "telegram";
  success = false;
  error = err (failure "no adapter found for channel type: telegram");
}

abbrev sent : DeliveryResult
sent = record { channel = "email"; success = true; error = ok tt }
