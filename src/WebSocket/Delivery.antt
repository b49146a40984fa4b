-- ===== src/WebSocket/Delivery.antt =====
-- handler.go: what the clients of the hub get, whatever happens.
use webtracker.Shared.{
  ℕ, zero, suc, ◌≤◌, ◌≡◌, inl, refl, Bool, true, false, Option, some, String, List, [], ◌∷◌, ◌++◌,
  if◌then◌else◌, length, All, arith, length-append,
}
use webtracker.WebSocket.Served.{IsSound, closed_lem, deliver_lem, unregister_lem, register_lem}
use webtracker.WebSocket.Pumps.{pump-IsSound}
use webtracker.WebSocket.{
  Event, connects, broadcasts, registers, unregisters, delivers, shuts_down, pumps, Connection, Hub,
  new_hub, register, unregister, deliver, run, step, run_case, broadcast_next, enqueue_broadcast,
  close, close_registered, pump, each, at_index, buffer_size, new_connection,
}

module _ {A : Type 0} (P : A → Type 0) (f : A → Option A)
    (keeps : (a : A) → P a → (b : A) × (f a ≡ some b) × P b) where
  each_lem : (l : List A) → All P l → (l' : List A) × (each f l ≡ some l') × All P l'
  each_lem [] h = ([], refl, tt)
  each_lem (a ∷ l) (p, h) =
      let (b, e, q) = keeps a p in
      let (l', e', q') = each_lem l h in (b ∷ l', rw (e, e') refl, (q, q'))

  at_index_lem :
      (i : ℕ) (l : List A) → All P l → (l' : List A) × (at_index i f l ≡ some l') × All P l'
  at_index_lem i [] h = ([], refl, tt)
  at_index_lem zero (a ∷ l) (p, h) = let (b, e, q) = keeps a p in (b ∷ l, rw e refl, (q, h))
  at_index_lem (suc i) (a ∷ l) (p, h) =
      let (l', e, q) = at_index_lem i l h in (a ∷ l', rw e refl, (p, q))

-- Every connection gets what it is owed, and the queue of the hub is within its size.
abbrev pub IsHubSound : Hub → Type 0
IsHubSound h = All IsSound h.connections × (length h.broadcast ≤ buffer_size)

abbrev Goes : Option Hub → Type 0
Goes o = (h : Hub) × (o ≡ some h) × IsHubSound h

closes_lem : (b : Bool) (c : Connection) → IsSound c → IsSound (if b then close c else c)
closes_lem true c (rest, h) = (rest, closed_lem c rest h)
closes_lem false c h = h

close_registered_lem : (l : List Connection) → All IsSound l → All IsSound (close_registered l)
unfolding close_registered
close_registered_lem [] h = tt
close_registered_lem (c ∷ l) (p, h) = (closes_lem c.registered c p, close_registered_lem l h)

new_connection-IsSound : (id : String) → IsSound (new_connection id)
new_connection-IsSound id = (
  [],
  record {
    sendable = λ e. cc;
    unstarted = λ e. (refl, refl, refl, refl, refl);
    bounded = omega arith;
    gapless = refl;
    complete = λ e. inl refl;
  },
)

connected_lem :
    (l : List Connection) (id : String) → All IsSound l → All IsSound (l ++ new_connection id ∷ [])
connected_lem [] id h = (new_connection-IsSound id, tt)
connected_lem (c ∷ l) id (p, h) = (p, connected_lem l id h)

broadcast_lem :
    (queue : List String) (h : Hub)
    → length queue ≤ buffer_size
    → All IsSound h.connections
    → Goes (broadcast_next queue (record h { broadcast = queue }))
unfolding broadcast_next
broadcast_lem [] h b p = (record h { broadcast = [] }, refl, (p, b))
broadcast_lem (m ∷ rest) h b p =
    let (l', e, q) = each_lem IsSound (deliver m) (λ c. deliver_lem c m) h.connections p in
    (record h { connections = l'; broadcast = rest }, rw e refl, (q, omega (arith, b)))

run_case-Goes : (event : Event) (h : Hub) → IsHubSound h → Goes (run_case event h)
unfolding run_case
run_case-Goes (registers i) h (p, b) =
    let (l', e, q) =
      at_index_lem IsSound (λ c. some (register c))
        (λ c s. (register c, refl, register_lem c.handler c s.0 refl s.1)) i h.connections p in
    (record h { connections = l' }, rw e refl, (q, b))
run_case-Goes (unregisters i) h (p, b) =
    let (l', e, q) =
      at_index_lem IsSound unregister (λ c. unregister_lem c.handler c refl) i h.connections p in
    (record h { connections = l' }, rw e refl, (q, b))
run_case-Goes delivers h (p, b) = broadcast_lem h.broadcast h b p
run_case-Goes shuts_down h (p, b) = (_, refl, (close_registered_lem h.connections p, b))
run_case-Goes (connects id) h s = (h, refl, s)
run_case-Goes (broadcasts m) h s = (h, refl, s)
run_case-Goes (pumps i s) h t = (h, refl, t)

running_lem :
    (b : Bool) (event : Event) (h : Hub)
    → IsHubSound h
    → Goes (if b then run_case event h else some h)
running_lem true event h s = run_case-Goes event h s
running_lem false event h s = (h, refl, s)

enqueue_lem :
    (m : String) (h : Hub)
    → length h.broadcast ≤ buffer_size
    → length (enqueue_broadcast m h).broadcast ≤ buffer_size
unfolding enqueue_broadcast
enqueue_lem m h b = ground (arith, length-append h.broadcast (m ∷ []))

enqueue_keeps : (m : String) (h : Hub) → (enqueue_broadcast m h).connections ≡ h.connections
unfolding enqueue_broadcast
enqueue_keeps m h = ground arith

step-Goes : (event : Event) (h : Hub) → IsHubSound h → Goes (step event h)
unfolding step
step-Goes (connects id) h (p, b) = (_, refl, (connected_lem h.connections id p, b))
step-Goes (broadcasts m) h (p, b) =
    (enqueue_broadcast m h, refl, (rw (enqueue_keeps m h) p, enqueue_lem m h b))
step-Goes (pumps i s) h (p, b) =
    let (l', e, q) =
      at_index_lem IsSound (λ c. some (pump s c)) (λ c t. (pump s c, refl, pump-IsSound s c t)) i
        h.connections p in
    (record h { connections = l' }, rw e refl, (q, b))
step-Goes (registers i) h s = running_lem h.running (registers i) h s
step-Goes (unregisters i) h s = running_lem h.running (unregisters i) h s
step-Goes delivers h s = running_lem h.running delivers h s
step-Goes shuts_down h s = running_lem h.running shuts_down h s

run-Goes : (events : List Event) (h : Hub) → IsHubSound h → Goes (run events h)
unfolding run
run-Goes [] h s = (h, refl, s)
run-Goes (event ∷ events) h s =
    let (h', e, s') = step-Goes event h s in rw e (run-Goes events h' s')

-- Whatever requests, messages of callers, steps of `Run` and of the pumps come in any order, no
-- step sends on a closed channel or closes one again, and the hub's queue and the buffers hold at
-- most 256 messages. What a connection has written is an initial part, in order and without gaps,
-- of what the hub has broadcast since it registered the connection. While it is registered and its
-- writer has not ended, the rest is still in its frame and its buffer.
pub clients_served :
    (events : List Event)
    → (h : Hub) × (run events new_hub ≡ some h)
      × All IsSound h.connections
      × (length h.broadcast ≤ buffer_size)
clients_served events =
    let (h, e, (p, b)) = run-Goes events new_hub (tt, omega arith) in (h, e, p, b)
