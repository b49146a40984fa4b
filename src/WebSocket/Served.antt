-- ===== src/WebSocket/Served.antt =====
-- handler.go: the hub keeps the messages of each connection in order.

use webtracker.Shared.{
  ltb→lt, Bool-cases, ◌<◌, ◌≢◌, ◌≤◌, ◌≡◌, ◌⊎◌, inl, inr, refl, sym, true, false, some, String, List,
  [], ◌∷◌, ◌++◌, ltb, length, arith, length-append,
}
use webtracker.WebSocket.{
  close, Handler, registering, serving, leaving, gone, Writer, not_started, waiting, opened,
  stopped, filling, Connection, buffer_size, register, drop_connection, unregister, deliver,
}
use mathlib.Core.List.{List, append-nil, append_assoc}
use Prim.Native.String.{◌∷◌, String}

abbrev pub flat : List (List String) → List String
flat [] = []
flat (f ∷ fs) = f ++ flat fs

flat-append : (fs : List (List String)) (f : List String) → flat (fs ++ f ∷ []) ≡ flat fs ++ f
flat-append [] f = append-nil f
flat-append (g ∷ fs) f = rw (flat-append fs f) (sym (append_assoc g (flat fs) f))

owed_lem : (a b c o m : List String) → a ++ (b ++ c) ≡ o → a ++ (b ++ (c ++ m)) ≡ o ++ m
owed_lem a b c o m e = rw (← e) (simp append_assoc)

sent_lem : (a b c o m : List String) → c ≡ [] → a ++ (b ++ c) ≡ o → a ++ ((b ++ m) ++ []) ≡ o ++ m
sent_lem a b c o m f e = rw (← e, f) (simp (append_assoc, append-nil))

pub flushed_lem :
    (written : List (List String)) (frame buffer rest o : List String)
    → flat written ++ ((frame ++ buffer) ++ rest) ≡ o
    → flat (written ++ frame ∷ []) ++ (buffer ++ rest) ≡ o
flushed_lem written frame buffer rest o e = rw (← e, flat-append written frame) (simp append_assoc)

-- What the writer still has to send, of its frame and the buffer.
abbrev pub pending : Writer → List String → List String → List String
pending not_started frame buffer = buffer
pending waiting frame buffer = buffer
pending opened frame buffer = frame ++ buffer
pending (filling n) frame buffer = frame ++ buffer
pending stopped frame buffer = []

-- `rest` is what will not be sent.
pub record IsServed (c : Connection) (rest : List String) : Type 0 where
  pub sendable : c.registered ≡ true → c.send_closed ≡ false
  pub unstarted :
      c.handler ≡ registering
      → (c.send_closed ≡ false)
        × (c.registered ≡ false)
        × (c.send ≡ [])
        × (c.written ≡ [])
        × (c.writer ≡ not_started)
  pub bounded : length c.send ≤ buffer_size
  pub gapless : flat c.written ++ (pending c.writer c.frame c.send ++ rest) ≡ c.owed
  pub complete : c.registered ≡ true → (rest ≡ []) ⊎ (c.writer ≡ stopped)

abbrev pub IsSound : Connection → Type 0
IsSound c = (rest : List String) × IsServed c rest

-- A connection that sends and owes the same is served as before.
pub register_lem :
    (k : Handler) (c : Connection) (rest : List String)
    → c.handler ≡ k
    → IsServed c rest
    → IsSound (register c)
unfolding register
register_lem registering c rest e h =
    rw (register, e)
      (
        [],
        record {
          sendable = λ r. (h.unstarted e).0;
          unstarted = λ r. cc;
          bounded = h.bounded;
          gapless = rw ((h.unstarted e).2, (h.unstarted e).3) refl;
          complete = λ r. inl refl;
        },
      )
register_lem serving c rest e h = rw (register, e) (rest, h)
register_lem leaving c rest e h = rw (register, e) (rest, h)
register_lem gone c rest e h = rw (register, e) (rest, h)

pub drop-IsServed :
    (c : Connection) (rest : List String)
    → c.registered ≡ true
    → IsServed c rest
    → IsServed (record c { registered = false; send_closed = true }) rest
drop-IsServed c rest r h = record {
  sendable = λ r. cc;
  unstarted = λ e. absurd (let k = (h.unstarted e).1 in cc);
  bounded = h.bounded;
  gapless = h.gapless;
  complete = λ r. cc;
}

-- One message more is owed, and not sent.
owe_lem :
    (c : Connection) (rest : List String) (m : String)
    → c.registered ≡ false
    → IsServed c rest
    → IsServed (record c { owed = c.owed ++ m ∷ [] }) (rest ++ m ∷ [])
owe_lem c rest m r h = record {
  sendable = h.sendable;
  unstarted = h.unstarted;
  bounded = h.bounded;
  gapless = owed_lem _ _ rest c.owed (m ∷ []) h.gapless;
  complete = λ t. cc;
}

pending-append :
    (w : Writer) (frame buffer : List String) (m : String)
    → w ≢ stopped
    → pending w frame (buffer ++ m ∷ []) ≡ pending w frame buffer ++ m ∷ []
pending-append not_started frame buffer m ne = refl
pending-append waiting frame buffer m ne = refl
pending-append opened frame buffer m ne = sym (append_assoc frame buffer (m ∷ []))
pending-append (filling n) frame buffer m ne = sym (append_assoc frame buffer (m ∷ []))
pending-append stopped frame buffer m ne = absurd (ne refl)

-- A connection whose goroutine moves on to a later phase.
pub moved_lem :
    (c : Connection) (rest : List String) (k : Handler)
    → k ≢ registering
    → IsServed c rest
    → IsServed (record c { handler = k }) rest
moved_lem c rest k ne h = record {
  sendable = h.sendable;
  unstarted = λ e. absurd (ne e);
  bounded = h.bounded;
  gapless = h.gapless;
  complete = h.complete;
}

stopped-cases : (w : Writer) → (w ≡ stopped) ⊎ (w ≢ stopped)
stopped-cases stopped = inl refl
stopped-cases not_started = inr (λ e. cc)
stopped-cases waiting = inr (λ e. cc)
stopped-cases opened = inr (λ e. cc)
stopped-cases (filling n) = inr (λ e. cc)

pub nothing_left :
    {rest : List String} {w : Writer} → (rest ≡ []) ⊎ (w ≡ stopped) → w ≢ stopped → rest ≡ []
nothing_left (inl e) ne = e
nothing_left (inr e) ne = absurd (ne e)

-- A buffer with room takes the message.
push_lem :
    (c : Connection) (rest : List String) (m : String)
    → c.registered ≡ true
    → length c.send < buffer_size
    → IsServed c rest
    → IsSound (record c { owed = c.owed ++ m ∷ []; send = c.send ++ m ∷ [] })
push_lem c rest m r room h = elim (stopped-cases c.writer) [
  | inl e ↦ (
    rest ++ m ∷ [],
    record {
      sendable = h.sendable;
      unstarted = λ f. absurd (let k = (h.unstarted f).1 in cc);
      bounded = omega (arith, length-append c.send (m ∷ []));
      gapless = rw e (owed_lem (flat c.written) [] rest c.owed (m ∷ []) (rw e at h.gapless));
      complete = λ t. inr e;
    },
  )
  | inr ne ↦ (
    [],
    record {
      sendable = h.sendable;
      unstarted = λ f. absurd (let k = (h.unstarted f).1 in cc);
      bounded = omega (arith, length-append c.send (m ∷ []));
      gapless = rw (pending-append c.writer c.frame c.send m ne) (
          sent_lem (flat c.written) (pending c.writer c.frame c.send) rest c.owed (m ∷ [])
            (nothing_left (h.complete r) ne) h.gapless);
      complete = λ t. inl refl;
    },
  )
]

pub deliver_lem :
    (c : Connection) (m : String)
    → IsSound c
    → (c' : Connection) × (deliver m c ≡ some c') × IsSound c'
unfolding deliver drop_connection
deliver_lem c m (rest, h) = elim (Bool-cases c.registered) [
  | inl r ↦ elim (Bool-cases (ltb (length c.send) buffer_size)) [
    | inl room ↦ (
      record c { owed = c.owed ++ m ∷ []; send = c.send ++ m ∷ [] },
      ground (arith, h.sendable r),
      push_lem c rest m r (ltb→lt _ _ room) h,
    )
    | inr full ↦ (
      record c { owed = c.owed ++ m ∷ []; registered = false; send_closed = true },
      ground (arith, h.sendable r),
      (
        rest ++ m ∷ [],
        owe_lem (record c { registered = false; send_closed = true }) rest m refl
            (drop-IsServed c rest r h),
      ),
    )
  ]
  | inr r ↦
      (record c { owed = c.owed ++ m ∷ [] }, ground arith, (rest ++ m ∷ [], owe_lem c rest m r h))
]

pub unregister_lem :
    (k : Handler) (c : Connection)
    → c.handler ≡ k
    → IsSound c
    → (c' : Connection) × (unregister c ≡ some c') × IsSound c'
unfolding unregister drop_connection
unregister_lem registering c e h = (c, ground (arith, e), h)
unregister_lem serving c e h = (c, ground (arith, e), h)
unregister_lem gone c e h = (c, ground (arith, e), h)
unregister_lem leaving c e (rest, h) = elim (Bool-cases c.registered) [
  | inl r ↦ (
    record c { handler = gone; registered = false; send_closed = true },
    ground (arith, h.sendable r),
    (rest, moved_lem _ rest gone (λ e. cc) (drop-IsServed c rest r h)),
  )
  | inr r ↦ (record c { handler = gone }, ground arith, (rest, moved_lem c rest gone (λ e. cc) h))
]

close_eq : (c : Connection) → close c ≡ record c { closed = true }
unfolding close
close_eq c = ground arith

pub closed_lem : (c : Connection) (rest : List String) → IsServed c rest → IsServed (close c) rest
closed_lem c rest h = rw (close_eq c) (record {
  sendable = h.sendable;
  unstarted = h.unstarted;
  bounded = h.bounded;
  gapless = h.gapless;
  complete = h.complete;
})
