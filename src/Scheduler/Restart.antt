-- ===== src/Scheduler/Restart.antt =====
-- scheduler.go: what calls of `Start` and `Stop` do to the main loop.
use webtracker.Shared.{◌≡◌, ◌≤◌, List, [], ◌∷◌, true, false, arith}
use webtracker.Scheduler.{Lifecycle, new_lifecycle, Returns, returned, panicked, start, stop, poll}

pub data Op : Type 0 where
  starts stops polls : Op

abbrev pub lasting : Lifecycle → Returns → Lifecycle
lasting s (returned r s') = s'
lasting s panicked = s

abbrev pub act : Op → Lifecycle → Lifecycle
act starts s = lasting s (start s)
act stops s = lasting s (stop s)
act polls s = poll s

-- The latest call comes first.
abbrev pub run : List Op → Lifecycle
run [] = new_lifecycle
run (op ∷ ops) = act op (run ops)

pub record IsSingle (s : Lifecycle) : Type 0 where
  pub at_most_one : s.loops ≤ 1
  pub not_running : s.running ≡ false → s.loops ≡ 0
  pub serving : s.running ≡ true → s.stop_closed ≡ false → s.loops ≡ 1

act-IsSingle : (op : Op) (s : Lifecycle) → IsSingle s → IsSingle (act op s)
unfolding start stop poll
act-IsSingle starts s h = ground arith
act-IsSingle stops s h = ground arith
act-IsSingle polls s h = ground arith

-- Whatever `Start` and `Stop` are called, there is never more than one main loop, and none while
-- the scheduler reports that it is not running; while it reports that it is running and has not
-- been stopped before, there is one.
pub run-IsSingle : (ops : List Op) → IsSingle (run ops)
run-IsSingle [] = ground arith
run-IsSingle (op ∷ ops) = act-IsSingle op (run ops) (run-IsSingle ops)

-- A scheduler that was stopped and is started again reports that it is running, its main loop
-- returns before the first tick, and the next `Stop` panics.
pub restart_fails :
    (ops : List Op)
    → (run ops).running ≡ true
    → (run ops).stop_closed ≡ false
    → let s = run (starts ∷ stops ∷ ops) in
      (s.running ≡ true) × ((poll s).loops ≡ 0) × (stop s ≡ panicked)
unfolding start stop poll
restart_fails ops h k = ground arith
