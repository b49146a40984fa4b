-- ===== src/Examples/Monitors.antt =====
-- Monitors, users, and the repositories over a database in memory.
use webtracker.Shared.{
  false, true, str_eq_refl, ◌↔◌, ◌≡◌, refl, none, some, String, Option, List, [], if◌then◌else◌,
  arith, str_eq, eq_iff, inl, inr, Bool-cases,
}
use webtracker.Shared.Dict.{lookup, store, remove, lookup-store, lookup-remove}
use webtracker.Shared.Errors.{Outcome, Result, ok, err, failure, monitor_not_found}
use webtracker.Domain.Monitor.{Monitor, ParsedUrl, validate, IsValidMonitor, validate_iff}
use webtracker.Resilience.Repository.{MonitorRepository}
use webtracker.Resilience.Repository.Coherence.{Faithful, content}
use webtracker.Shared.{◌∷◌, []}
use webtracker.Shared.Int.{pos}
use webtracker.Shared.Clock.{hours, minutes}
use webtracker.Domain.User.{Bcrypt, User}
use webtracker.MonitorService.{
  Scheduler, MonitorService, Call, UpdateMonitorRequest, set_enabled, apply_update, rescheduled,
  scheduled, monitor_updated,
}
use webtracker.MonitorService.Soundness.{
  IsSound, Request, update, disable, delete, handle_all, handle_all-IsSound,
}
use webtracker.Shared.Log.{Logged}
use webtracker.Examples.Data.{site}

abbrev pub parse_site : String → Result ParsedUrl
parse_site u =
    if str_eq u "https://example.com"
    then ok (record { scheme = "https"; host = "example.com" })
    else err (failure "parse")

validate_iff_example : (validate parse_site site ≡ ok tt) ↔ IsValidMonitor parse_site site
validate_iff_example = validate_iff parse_site site

site_is_valid : validate parse_site site ≡ ok tt
unfolding validate webtracker.Domain.Monitor.validate_url
    webtracker.Domain.Monitor.validate_check_interval
site_is_valid = refl

-- A table of monitors by id.
abbrev pub Table : Type 0
Table = List (String × Monitor)

abbrev checked : String → Option Monitor → Result Monitor
checked id none = err monitor_not_found
checked id (some m) = if str_eq m.id id then ok m else err monitor_not_found

abbrev pub memory : MonitorRepository Table
memory = record {
  create = λ m w. (ok tt, store m.id m w);
  get_by_id = λ id w. (checked id (lookup id w), w);
  list = λ f w. (ok [], w);
  update = λ m w. (ok tt, store m.id m w);
  delete = λ id w. (ok tt, remove id w);
}

checked_ok :
    (o : Option Monitor) (id : String) (m : Monitor)
    → checked id o ≡ ok m
    → (o ≡ some m) × (m.id ≡ id)
checked_ok none id m e = ground arith
checked_ok (some x) id m e = ground (arith, eq_iff x.id id)

abbrev row_content : Option Monitor → Option Monitor
row_content none = none
row_content (some m) = some (content m)

row_stored :
    (m : Monitor) (k : String) (w : List (String × Monitor))
    → row_content (lookup k (store m.id m w))
      ≡ (if str_eq m.id k then some (content m) else row_content (lookup k w))
row_stored m k w = elim (Bool-cases (str_eq m.id k)) [
  | inl f ↦ rw (lookup-store m.id k m w, f) refl
  | inr f ↦ rw (lookup-store m.id k m w, f) refl
]

row_removed :
    (id k : String) (w : List (String × Monitor))
    → row_content (lookup k (remove id w))
      ≡ (if str_eq id k then none else row_content (lookup k w))
row_removed id k w = elim (Bool-cases (str_eq id k)) [
  | inl f ↦ rw (lookup-remove id k w, f) refl
  | inr f ↦ rw (lookup-remove id k w, f) refl
]

pub memory-Faithful : Faithful memory
memory-Faithful = record {
  stored = λ w k. row_content (lookup k w);
  create_ok = λ m w k e. row_stored m k w;
  create_err = λ m w k x e. absurd (ground (arith, e));
  update_ok = λ m w k e. row_stored m k w;
  update_err = λ m w k x e. absurd (ground (arith, e));
  delete_ok = λ id w k e. row_removed id k w;
  delete_err = λ id w k x e. absurd (ground (arith, e));
  get_keeps = λ id w k. refl;
  get_ok = λ id w m e. let (f, same) = checked_ok (lookup id w) id m e in (rw f refl, same);
  list_keeps = λ f w k. refl;
  list_ok = λ f w ms e. ground (arith, e);
}

-- A bcrypt that keeps the password as it is.
abbrev kept : String → Result String
kept p = ok p

abbrev compared : String → String → Outcome
compared hash p = if str_eq hash p then ok tt else err (failure "mismatch")

plain_matches : (p hash : String) → kept p ≡ ok hash → compared hash p ≡ ok tt
plain_matches p hash e = ground (arith, e, str_eq_refl p)

abbrev plain : Bcrypt
plain = record {
  generate_from_password = kept;
  compare_hash_and_password = compared;
  matches_generated = plain_matches;
}

abbrev someone : User
someone = record {
  id = "u1";
  email = "ada@example.com";
  password_hash = "old";
  name = "Ada";
  created_at = hours 1;
  updated_at = hours 1;
}

-- Creating a monitor, enabling it with a new interval, and deleting it.
abbrev scheduler : Scheduler (List (String × Monitor))
scheduler = record {
  schedule_monitor = λ m w. (ok tt, w);
  unschedule_monitor = λ id w. (ok tt, w);
  reschedule_monitor = λ m w. (ok tt, w);
}

abbrev service : MonitorService (List (String × Monitor))
service = record {
  clock = λ w. (hours 3, w);
  new_id = λ w. ("m2", w);
  parse_url = parse_site;
  repo = memory;
  scheduler = some scheduler;
}

abbrev started : Logged (List (String × Monitor)) Call
started = record { world = ("m1", record site { enabled = false }) ∷ []; log = [] }

abbrev faster : UpdateMonitorRequest
faster = record (set_enabled true) { check_interval = some (pos (minutes 1)) }

abbrev requests : List (Request service)
requests = update "m1" faster ∷ disable "m1" ∷ delete "m1" ∷ []

handle_all-IsSound_example : IsSound parse_site (handle_all service requests started).log
handle_all-IsSound_example = handle_all-IsSound service requests started tt

abbrev faster_site : Monitor
faster_site = record site { enabled = true; check_interval = pos (minutes 1); updated_at = hours 3 }

faster_is_valid : validate parse_site faster_site ≡ ok tt
unfolding validate webtracker.Domain.Monitor.validate_url
    webtracker.Domain.Monitor.validate_check_interval
faster_is_valid = refl

faster_is_update : faster_site ≡ apply_update (hours 3) faster (record site { enabled = false })
unfolding apply_update
faster_is_update = refl
