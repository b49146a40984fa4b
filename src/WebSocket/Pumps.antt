-- ===== src/WebSocket/Pumps.antt =====
-- handler.go: the pumps of a connection keep its messages in order.

use webtracker.Shared.{
  Bool-cases, ◌≢◌, ℕ, zero, suc, ◌≤◌, ◌≡◌, inl, inr, refl, Bool, true, false, String, List, [], ◌∷◌,
  ◌++◌, length, arith,
}
use webtracker.WebSocket.Served.{IsServed, IsSound, pending, moved_lem, nothing_left, flushed_lem}
use webtracker.WebSocket.{
  PumpStep, pump, reads_nothing, takes_message, counts_queued, adds_queued, fails_to_write, flushes,
  flushes, PumpStep, pump, write_fails, flush, add_queued, count_queued, take_message, read_fails,
  Handler, registering, serving, leaving, gone, Writer, not_started, waiting, opened, stopped,
  filling, Connection,
}
use mathlib.Core.List.{List, append_assoc}
use Prim.Native.String.{◌∷◌, String}

read_fails_lem :
    (k : Handler) (c : Connection) (rest : List String)
    → c.handler ≡ k
    → IsServed c rest
    → IsServed (read_fails c) rest
unfolding read_fails
read_fails_lem serving c rest e h = rw (read_fails, e) (moved_lem c rest leaving (λ f. cc) h)
read_fails_lem registering c rest e h = rw (read_fails, e) h
read_fails_lem leaving c rest e h = rw (read_fails, e) h
read_fails_lem gone c rest e h = rw (read_fails, e) h

-- The writer moves on, and keeps what is written and pending.
writer_lem :
    (c : Connection) (rest frame buffer : List String) (w : Writer)
    → c.writer ≢ not_started
    → c.writer ≢ stopped
    → length buffer ≤ length c.send
    → pending w frame buffer ≡ pending c.writer c.frame c.send
    → IsServed c rest
    → IsServed (record c { writer = w; frame = frame; send = buffer }) rest
writer_lem c rest frame buffer w started going shorter same h = record {
  sendable = h.sendable;
  unstarted = λ e. absurd (started (h.unstarted e).4);
  bounded = omega (arith, h.bounded);
  gapless = rw same h.gapless;
  complete = λ r. inl (nothing_left (h.complete r) going);
}

-- The writer ends; what it had not written is lost.
stop_lem :
    (c : Connection) (rest : List String)
    → c.writer ≢ not_started
    → IsServed c rest
    → IsSound (record c { writer = stopped })
stop_lem c rest started h = (
  pending c.writer c.frame c.send ++ rest,
  record {
    sendable = h.sendable;
    unstarted = λ e. absurd (started (h.unstarted e).4);
    bounded = h.bounded;
    gapless = h.gapless;
    complete = λ r. inr refl;
  },
)

take_in :
    (l : List String) (c : Connection) (rest : List String)
    → c.send ≡ l
    → c.writer ≡ waiting
    → IsServed c rest
    → IsSound (take_message c)
unfolding take_message
take_in [] c rest e f h = elim (Bool-cases c.send_closed) [
  | inl g ↦
      let k : take_message c ≡ record c { writer = stopped } = ground (arith, e, f, g) in
      rw k (stop_lem c rest (λ i. cc) h)
  | inr g ↦ let k : take_message c ≡ c = ground (arith, e, f, g) in rw k (rest, h)
]
take_in (m ∷ l) c rest e f h =
    let k : take_message c ≡ record c { send = l; frame = m ∷ []; writer = opened } =
      ground (arith, e, f) in
    rw k (
      rest,
      writer_lem c rest (m ∷ []) l opened (λ i. cc) (λ i. cc) (rw e (omega arith)) (rw (e, f) refl)
          h,
    )

take_lem : (w : Writer) (c : Connection) → c.writer ≡ w → IsSound c → IsSound (take_message c)
unfolding take_message
take_lem not_started c e h = rw (take_message, e) h
take_lem opened c e h = rw (take_message, e) h
take_lem (filling n) c e h = rw (take_message, e) h
take_lem stopped c e h = rw (take_message, e) h
take_lem waiting c e (rest, h) = take_in c.send c rest refl e h

count_lem : (w : Writer) (c : Connection) → c.writer ≡ w → IsSound c → IsSound (count_queued c)
unfolding count_queued
count_lem not_started c e h = rw (count_queued, e) h
count_lem waiting c e h = rw (count_queued, e) h
count_lem (filling n) c e h = rw (count_queued, e) h
count_lem stopped c e h = rw (count_queued, e) h
count_lem opened c e (rest, h) =
    let k : count_queued c ≡ record c { writer = filling (length c.send) } = ground (arith, e) in
    rw k (
      rest,
      writer_lem c rest c.frame c.send (filling (length c.send)) (λ i. cc) (λ i. cc) (omega arith)
          (rw e refl) h,
    )

add_in :
    (l : List String) (n : ℕ) (c : Connection) (rest : List String)
    → c.send ≡ l
    → c.writer ≡ filling (suc n)
    → IsServed c rest
    → IsSound (add_queued c)
unfolding add_queued
add_in [] n c rest e f h = let k : add_queued c ≡ c = ground (arith, e, f) in rw k (rest, h)
add_in (m ∷ l) n c rest e f h =
    let k : add_queued c ≡ record c { send = l; frame = c.frame ++ m ∷ []; writer = filling n } =
      ground (arith, e, f) in
    rw k (
      rest,
      writer_lem c rest (c.frame ++ m ∷ []) l (filling n) (λ i. cc) (λ i. cc) (rw e (omega arith))
          (rw (e, f) (append_assoc c.frame (m ∷ []) l)) h,
    )

add_lem : (w : Writer) (c : Connection) → c.writer ≡ w → IsSound c → IsSound (add_queued c)
unfolding add_queued
add_lem not_started c e h = rw (add_queued, e) h
add_lem waiting c e h = rw (add_queued, e) h
add_lem opened c e h = rw (add_queued, e) h
add_lem stopped c e h = rw (add_queued, e) h
add_lem (filling zero) c e h = rw (add_queued, e) h
add_lem (filling (suc n)) c e (rest, h) = add_in c.send n c rest refl e h

flush_in :
    (sent : Bool) (c : Connection) (rest : List String)
    → c.writer ≡ filling zero
    → IsServed c rest
    → IsSound (flush sent c)
unfolding flush
flush_in false c rest e h =
    let k : flush false c ≡ record c { writer = stopped } = ground (arith, e) in
    rw k (stop_lem c rest (λ i. cc) h)
flush_in true c rest e h =
    let k : flush true c
        ≡ record c { written = c.written ++ c.frame ∷ []; frame = []; writer = waiting } =
      ground (arith, e) in
    rw k (
      rest,
      record {
        sendable = h.sendable;
        unstarted = λ f. absurd (let i = (h.unstarted f).4 in cc);
        bounded = h.bounded;
        gapless = flushed_lem c.written c.frame c.send rest c.owed (rw e at h.gapless);
        complete = λ r. inl (nothing_left (h.complete r) (λ i. cc));
      },
    )

flush_lem :
    (w : Writer) (sent : Bool) (c : Connection) → c.writer ≡ w → IsSound c → IsSound (flush sent c)
unfolding flush
flush_lem not_started sent c e h = rw (flush, e) h
flush_lem waiting sent c e h = rw (flush, e) h
flush_lem opened sent c e h = rw (flush, e) h
flush_lem stopped sent c e h = rw (flush, e) h
flush_lem (filling zero) sent c e (rest, h) = flush_in sent c rest e h
flush_lem (filling (suc n)) sent c e h = rw (flush, e) h

write_fails_lem : (w : Writer) (c : Connection) → c.writer ≡ w → IsSound c → IsSound (write_fails c)
unfolding write_fails
write_fails_lem not_started c e h = rw (write_fails, e) h
write_fails_lem (filling n) c e h = rw (write_fails, e) h
write_fails_lem stopped c e h = rw (write_fails, e) h
write_fails_lem waiting c e (rest, h) = rw (write_fails, e) (stop_lem c rest (λ i. cc) h)
write_fails_lem opened c e (rest, h) = rw (write_fails, e) (stop_lem c rest (λ i. cc) h)

pub pump-IsSound : (s : PumpStep) (c : Connection) → IsSound c → IsSound (pump s c)
unfolding pump
pump-IsSound reads_nothing c (rest, h) = (rest, read_fails_lem c.handler c rest refl h)
pump-IsSound takes_message c h = take_lem c.writer c refl h
pump-IsSound counts_queued c h = count_lem c.writer c refl h
pump-IsSound adds_queued c h = add_lem c.writer c refl h
pump-IsSound fails_to_write c h = write_fails_lem c.writer c refl h
pump-IsSound (flushes sent) c h = flush_lem c.writer sent c refl h
