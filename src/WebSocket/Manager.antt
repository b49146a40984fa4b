-- ===== src/WebSocket/Manager.antt =====
-- interface/websocket/manager.go, and what handler.go broadcasts: the messages about checks and
-- alerts. Encoding to JSON is a parameter; a hub's context is its `running`.
use webtracker.Shared.{ℕ, Bool, true, false, Option, none, some, String, List}
use mathlib.Core.Option
use webtracker.Domain.HealthCheck.{HealthCheck, HealthCheckStatus}
use webtracker.Domain.Alert.{Alert, AlertType, AlertSeverity, Message, Details, AlertChannelType}
use webtracker.WebSocket.{Hub, new_hub, enqueue_broadcast, get_connection_count}
use webtracker.Shared.Int.{ℤ, div_int64}
use webtracker.Shared.Clock.{Instant, Duration}
use webtracker.Shared.Errors.{Result, ok, err}

pub record HealthCheckUpdateData : Type 0 where
  pub monitor_id : String
  pub status : HealthCheckStatus
  pub status_code : ℤ
  pub response_time : ℤ
  pub checked_at : Instant
  pub error_message : String

pub record AlertData : Type 0 where
  pub monitor_id : String
  pub type : AlertType
  pub severity : AlertSeverity
  pub message : Message
  pub details : Details
  pub sent_at : Instant
  pub channels : List AlertChannelType

-- `Message`: its `type` is the constructor.
pub data HubMessage : Type 0 where
  health_check_update : HealthCheckUpdateData → HubMessage
  alert : AlertData → HubMessage

-- `Duration.Milliseconds`
abbrev pub milliseconds : Duration → ℤ
milliseconds d = div_int64 d 1000000

unfoldable pub update_of : HealthCheck → HubMessage
update_of c = health_check_update (record {
  monitor_id = c.monitor_id;
  status = c.status;
  status_code = c.status_code;
  response_time = milliseconds c.response_time;
  checked_at = c.checked_at;
  error_message = c.error_message;
})

unfoldable pub alert_of : Alert → HubMessage
alert_of a = alert (record {
  monitor_id = a.monitor_id;
  type = a.type;
  severity = a.severity;
  message = a.message;
  details = a.details;
  sent_at = a.sent_at;
  channels = a.channels;
})

module _ (marshal : HubMessage → Result String) where
  -- A message that cannot be encoded is dropped.
  send_marshalled : Result String → Hub → Hub
  send_marshalled (ok bytes) h = enqueue_broadcast bytes h
  send_marshalled (err e) h = h

  unfoldable pub broadcast_health_check_update : HealthCheck → Hub → Hub
  unfolding send_marshalled enqueue_broadcast
  broadcast_health_check_update c h = send_marshalled (marshal (update_of c)) h

  unfoldable pub broadcast_alert : Alert → Hub → Hub
  unfolding send_marshalled enqueue_broadcast
  broadcast_alert a h = send_marshalled (marshal (alert_of a)) h

-- `cancelled` tells whether `Stop` has cancelled the hub's context.
pub record WebSocketManager : Type 0 where
  pub hub : Option Hub
  pub cancelled : Bool

abbrev pub new_web_socket_manager : WebSocketManager
new_web_socket_manager = record { hub = none; cancelled = false }

-- A hub that was running before is left to itself.
abbrev pub start : WebSocketManager → WebSocketManager
start m = record { hub = some new_hub; cancelled = false }

abbrev pub stop : WebSocketManager → WebSocketManager
stop m = elim m.hub [ none ↦ m | some h ↦ record m { cancelled = true } ]

-- A call of the hub, which does nothing before `start`.
abbrev pub on_hub : (Hub → Hub) → WebSocketManager → WebSocketManager
on_hub f m = record m { hub = Option.map f m.hub }

abbrev pub get_manager_connection_count : WebSocketManager → ℕ
get_manager_connection_count m = elim m.hub [ none ↦ 0 | some h ↦ get_connection_count h ]
