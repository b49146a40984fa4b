-- ===== src/WebSocket.antt =====
-- interface/websocket/handler.go and manager.go: the hub of WebSocket connections.
-- The goroutines are interleaved: each event is a step of `Run` (a case of its `select`), of the
-- two pumps of a connection, or of a caller. The set `connections` of pointers is the flag
-- `registered` of the connection. Encoding to JSON is a parameter; the sockets' answers are part
-- of the events. Deadlines, logs and what clients send are left out.
pub mod Served
pub mod Pumps
pub mod Delivery
pub mod Manager
use mathlib.Core.Option
use webtracker.Shared.{
  ℕ, zero, suc, ◌+◌, Bool, true, false, not, Option, none, some, String, List, [], ◌∷◌, ◌++◌,
  if◌then◌else◌, ltb, length, tally,
}

-- Where the goroutine of `HandleWebSocket`, and then that of `readPump`, stands.
pub data Handler : Type 0 where
  registering serving leaving gone : Handler

-- Where `writePump` stands: `opened` after `NextWriter`, `filling n` with n messages to add.
pub data Writer : Type 0 where
  not_started waiting opened stopped : Writer
  filling : ℕ → Writer

-- A channel is its buffer, the oldest message first. `written` holds the text messages that went
-- out, each a list of the messages that are joined in it, and `frame` those of the next one.
-- `owed`, which only theorems read, is what `Run` has broadcast since it registered the connection.
pub record Connection : Type 0 where
  pub id : String
  pub send : List String
  pub send_closed : Bool
  pub closed : Bool
  pub registered : Bool
  pub handler : Handler
  pub writer : Writer
  pub frame : List String
  pub written : List (List String)
  pub owed : List String

pub record Hub : Type 0 where
  pub connections : List Connection
  pub broadcast : List String
  pub running : Bool

abbrev pub new_hub : Hub
new_hub = record { connections = []; broadcast = []; running = true }

abbrev pub new_connection : String → Connection
new_connection id = record {
  id = id;
  send = [];
  send_closed = false;
  closed = false;
  registered = false;
  handler = registering;
  writer = not_started;
  frame = [];
  written = [];
  owed = [];
}

abbrev pub buffer_size : ℕ
buffer_size = 256

-- `Run` takes the connection from the channel `register`; its pumps start.
unfoldable pub register : Connection → Connection
register c = elim c.handler [
  | registering ↦ record c { registered = true; handler = serving; writer = waiting; owed = [] }
  | other ↦ c
]

-- delete(h.connections, conn); close(conn.Send). Closing it again panics (none).
unfoldable pub drop_connection : Connection → Option Connection
drop_connection c =
    if c.send_closed then none else some (record c { registered = false; send_closed = true })

-- `Run` takes the connection from the channel `unregister`, and `readPump` ends.
unfoldable pub unregister : Connection → Option Connection
unfolding drop_connection
unregister c = elim c.handler [
  | leaving ↦
      let served = record c { handler = gone } in
      if c.registered then drop_connection served else some served
  | other ↦ some c
]

-- The body of the loop over the connections; sending on a closed channel panics (none).
unfoldable pub deliver : String → Connection → Option Connection
unfolding drop_connection
deliver message c =
    let c' = record c { owed = c.owed ++ message ∷ [] } in
    if not c.registered
    then some c'
    else if c.send_closed
    then none
    else if ltb (length c.send) buffer_size
    then some (record c' { send = c.send ++ message ∷ [] })
    else drop_connection c'

unfoldable pub close : Connection → Connection
close c = if c.closed then c else record c { closed = true }

-- `readPump`: reading fails, and the deferred function waits for `Run`.
unfoldable pub read_fails : Connection → Connection
read_fails c = elim c.handler [ serving ↦ record c { handler = leaving } | other ↦ c ]

-- `writePump` in its `select`: a message is ready, or the channel was closed and is empty.
unfoldable pub take_message : Connection → Connection
take_message c = elim c.writer [
  | waiting ↦ elim c.send [
    | [] ↦ if c.send_closed then record c { writer = stopped } else c
    | message ∷ rest ↦ record c { send = rest; frame = message ∷ []; writer = opened }
  ]
  | other ↦ c
]

-- n := len(c.Send)
unfoldable pub count_queued : Connection → Connection
count_queued c = elim c.writer [
  | opened ↦ record c { writer = filling (length c.send) }
  | other ↦ c
]

-- One round of the loop over n; on an empty channel it waits.
unfoldable pub add_queued : Connection → Connection
add_queued c = elim c.writer [
  | filling n ↦ elim n [
    | zero ↦ c
    | suc m ↦ elim c.send [
      | [] ↦ c
      | message ∷ rest ↦ record c {
        send = rest;
        frame = c.frame ++ message ∷ [];
        writer = filling m;
      }
    ]
  ]
  | other ↦ c
]

-- w.Close(): the frame goes out, or the pump ends.
unfoldable pub flush : Bool → Connection → Connection
flush sent c = elim c.writer [
  | filling n ↦ elim n [
    | zero ↦
        if sent
        then record c { written = c.written ++ c.frame ∷ []; frame = []; writer = waiting }
        else record c { writer = stopped }
    | suc m ↦ c
  ]
  | other ↦ c
]

-- `NextWriter` or a ping fails.
unfoldable pub write_fails : Connection → Connection
write_fails c = elim c.writer [
  | waiting ↦ record c { writer = stopped }
  | opened ↦ record c { writer = stopped }
  | other ↦ c
]

-- The steps of the two pumps of a connection.
pub data PumpStep : Type 0 where
  reads_nothing takes_message counts_queued adds_queued fails_to_write : PumpStep
  flushes : Bool → PumpStep

unfoldable pub pump : PumpStep → Connection → Connection
unfolding read_fails take_message count_queued add_queued write_fails flush
pump reads_nothing c = read_fails c
pump takes_message c = take_message c
pump counts_queued c = count_queued c
pump adds_queued c = add_queued c
pump fails_to_write c = write_fails c
pump (flushes sent) c = flush sent c

-- What happens: a request for a WebSocket, a message of a caller, a case of `Run`, or a step of a
-- pump of the connection with a number.
pub data Event : Type 0 where
  connects : String → Event
  broadcasts : String → Event
  registers : ℕ → Event
  unregisters : ℕ → Event
  delivers : Event
  shuts_down : Event
  pumps : ℕ → PumpStep → Event

abbrev pub at_index : {A : Type 0} → ℕ → (A → Option A) → List A → Option (List A)
at_index i f [] = some []
at_index zero f (a ∷ l) = Option.map (λ a'. a' ∷ l) (f a)
at_index (suc i) f (a ∷ l) = Option.map (λ l'. a ∷ l') (at_index i f l)

abbrev cons_both : {A : Type 0} → Option A → Option (List A) → Option (List A)
cons_both none l = none
cons_both (some a) l = Option.map (λ l'. a ∷ l') l

abbrev pub each : {A : Type 0} → (A → Option A) → List A → Option (List A)
each f [] = some []
each f (a ∷ l) = cons_both (f a) (each f l)

-- The channel `broadcast` is full at 256 messages, and then drops them.
unfoldable pub enqueue_broadcast : String → Hub → Hub
enqueue_broadcast message h =
    if ltb (length h.broadcast) buffer_size
    then record h { broadcast = h.broadcast ++ message ∷ [] }
    else h

abbrev with_connections : Hub → Option (List Connection) → Option Hub
with_connections h l = Option.map (λ l'. record h { connections = l' }) l

unfoldable pub broadcast_next : List String → Hub → Option Hub
unfolding deliver
broadcast_next [] h = some h
broadcast_next (message ∷ rest) h =
    with_connections (record h { broadcast = rest }) (each (deliver message) h.connections)

unfoldable pub close_registered : List Connection → List Connection
unfolding close
close_registered [] = []
close_registered (c ∷ l) = (if c.registered then close c else c) ∷ close_registered l

-- A case of the `select` in `Run`, which is left at shutdown.
unfoldable pub run_case : Event → Hub → Option Hub
unfolding register unregister broadcast_next close_registered
run_case (registers i) h = with_connections h (at_index i (λ c. some (register c)) h.connections)
run_case (unregisters i) h = with_connections h (at_index i unregister h.connections)
run_case delivers h = broadcast_next h.broadcast h
run_case shuts_down h =
    some (record h { connections = close_registered h.connections; running = false })
run_case event h = some h

unfoldable pub step : Event → Hub → Option Hub
unfolding run_case pump enqueue_broadcast
step (connects id) h = some (record h { connections = h.connections ++ new_connection id ∷ [] })
step (broadcasts message) h = some (enqueue_broadcast message h)
step (pumps i s) h = with_connections h (at_index i (λ c. some (pump s c)) h.connections)
step event h = if h.running then run_case event h else some h

abbrev pub and_run : Option Hub → (Hub → Option Hub) → Option Hub
and_run none f = none
and_run (some h) f = f h

-- `none` is a panic.
unfoldable pub run : List Event → Hub → Option Hub
unfolding step
run [] h = some h
run (event ∷ events) h = and_run (step event h) (run events)

abbrev pub registered_in : Connection → Bool
registered_in c = c.registered

unfoldable pub get_connection_count : Hub → ℕ
get_connection_count h = tally registered_in h.connections
