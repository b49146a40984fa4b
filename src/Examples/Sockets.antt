-- ===== src/Examples/Sockets.antt =====
-- The hub of WebSocket connections.
use webtracker.Shared.{
  ◌≤◌, ◌≡◌, refl, Bool, true, false, not, Option, none, some, String, List, [], ◌∷◌, map, length,
  All,
}
use webtracker.WebSocket.{
  Event, connects, broadcasts, registers, unregisters, delivers, pumps, reads_nothing,
  takes_message, counts_queued, adds_queued, flushes, Hub, Connection, new_hub, run, step,
  buffer_size,
}
use webtracker.WebSocket.Served.{IsSound}
use webtracker.WebSocket.Delivery.{clients_served}

-- A client comes, gets two messages in one frame, and leaves.
abbrev visit : List Event
visit =
    connects "conn_1"
    ∷ registers 0
    ∷ broadcasts "a"
    ∷ broadcasts "b"
    ∷ delivers
    ∷ pumps 0 takes_message
    ∷ delivers
    ∷ pumps 0 counts_queued
    ∷ pumps 0 adds_queued
    ∷ pumps 0 (flushes true)
    ∷ pumps 0 reads_nothing
    ∷ unregisters 0
    ∷ []

clients_served_example :
    (h : Hub) × (run visit new_hub ≡ some h)
    × All IsSound h.connections
    × (length h.broadcast ≤ buffer_size)
clients_served_example = clients_served visit

abbrev frames_of : Option Hub → List (List (List String))
frames_of none = []
frames_of (some h) = map (λ (c : Connection). c.written) h.connections

visit_frames : frames_of (run visit new_hub) ≡ (("a" ∷ "b" ∷ []) ∷ []) ∷ []
unfolding run step
visit_frames = refl

abbrev open_channels : Option Hub → List Bool
open_channels none = []
open_channels (some h) = map (λ (c : Connection). not c.send_closed) h.connections

visit_closes : open_channels (run visit new_hub) ≡ false ∷ []
unfolding run step
visit_closes = refl
