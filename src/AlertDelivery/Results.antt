-- ===== src/AlertDelivery/Results.antt =====
-- delivery.go: the results of a delivery, in whatever order the goroutines finish.
use webtracker.Shared.{◌≡◌, ◌↔◌, false, true, none, some, List, [], ◌∷◌}
use mathlib.Core.List.{Perm}
use mathlib.Core.List.Perm
use webtracker.Shared.Dict.{lookup}
use webtracker.Shared.Errors.{ok}
use webtracker.Domain.Alert.{Alert}
use webtracker.Domain.Monitor.{AlertChannel}
use webtracker.Resilience.AlertChannel.{Send, DeliveryResult}
use webtracker.AlertDelivery.{Adapters}

module _ {W : Type 0} (adapters : Adapters W) (alert : Alert) where
  -- What is reported of a channel whose adapter was called at `w`, and what the call changed.
  pub record IsReport (c : AlertChannel) (w : W) (r : DeliveryResult) (w' : W) : Type 0 where
    pub named : r.channel ≡ c.type
    pub unknown : lookup c.type adapters ≡ none → (r.success ≡ false) × (w' ≡ w)
    pub answered :
        (send : Send W)
        → lookup c.type adapters ≡ some send
        → (r.error ≡ (send alert c.config w).0) × (w' ≡ (send alert c.config w).1)
    pub succeeded : (r.success ≡ true) ↔ (r.error ≡ ok tt)

  -- The adapters are called one after the other, in the order of the channels.
  pub data InOrder : List AlertChannel → W → List DeliveryResult → W → Type 0 where
    nothing : {w : W} → InOrder [] w [] w
    next :
        {c : AlertChannel} {cs : List AlertChannel} {r : DeliveryResult} {rs : List DeliveryResult}
        {w v w' : W}
        → IsReport c w r v
        → InOrder cs v rs w'
        → InOrder (c ∷ cs) w (r ∷ rs) w'
