-- ===== src/Examples/Logins.antt =====
-- Logins over tables of users and sessions in memory.
use webtracker.Shared.{
  arith, ◌≡◌, ◌↔◌, true, false, Option, none, some, String, if◌then◌else◌, str_eq, eq_iff,
}
use webtracker.Shared.Int.{pos}
use webtracker.Shared.Clock.{Instant, hours}
use webtracker.Shared.Errors.{Outcome, Result, ok, err, failure}
use webtracker.Domain.User.{User, Session, Bcrypt}
use webtracker.Auth.{AuthService, login}
use webtracker.Auth.Middleware.{
  Context, load_user, require_auth, lets_through, context_of, continued, IsLoggedIn, IsSafe,
  require_auth_gate, csrf_protection, csrf_protection_iff,
}

abbrev ann : User
ann = record {
  id = "u1";
  email = "ann@example.com";
  password_hash = "correct horse";
  name = "Ann";
  created_at = 0;
  updated_at = 0;
}

abbrev pub compare : String → String → Outcome
compare hash password = if str_eq hash password then ok tt else err (failure "mismatch")

pub plain_matches :
    (password hash : String)
    → ◌≡◌ {A = Result String} (ok password) (ok hash)
    → compare hash password ≡ ok tt
plain_matches password hash e = ground (arith, e, eq_iff hash password)

-- A hash that is the password itself.
abbrev pub plain : Bcrypt
plain = record {
  generate_from_password = ok;
  compare_hash_and_password = compare;
  matches_generated = plain_matches;
}

-- The sessions by their ids, and the clock.
record Tables : Type 0 where
  sessions : String → Option Session
  now : Instant

abbrev or_missing : {A : Type 0} → Option A → Result A
or_missing none = err (failure "not found")
or_missing (some a) = ok a

abbrev auth : AuthService Tables
auth = record {
  users = record {
    create = λ u w. (ok tt, w);
    get_by_id = λ id w. (if str_eq id "u1" then ok ann else err (failure "not found"), w);
    get_by_email = λ email w.
        (if str_eq email "ann@example.com" then ok ann else err (failure "not found"), w);
  };
  sessions = record {
    create = λ session w. (
      ok tt,
      record w { sessions = λ id. if str_eq session.id id then some session else w.sessions id },
    );
    get_by_id = λ id w. (or_missing (w.sessions id), w);
    delete_by_id =
        λ id w. (ok tt, record w { sessions = λ j. if str_eq id j then none else w.sessions j });
    delete_expired = λ w. (ok tt, w);
  };
  session_ttl = pos (hours 24);
  clock = λ w. (w.now, w);
  new_id = λ w. ("u2", w);
  new_token = λ w. (ok "token", w);
  bcrypt = plain;
  matches_email = λ email. true;
  to_lower = λ s. s;
  trim_space = λ s. s;
}

abbrev nobody : Tables
nobody = record { sessions = λ id. none; now = hours 1 }

abbrev session : Session
session = record {
  id = "token";
  user_id = "u1";
  csrf_token = "token";
  expires_at = hours 25;
  created_at = hours 1;
}

abbrev entered : Tables
entered = (login auth "ann@example.com" "correct horse" nobody).1

abbrev request : Context
request = record { user = none; session = none; cookie_cleared = false }

require_auth_gate_example :
    let (reply, w') = require_auth auth (some "token") request entered in
    (load_user (some auth) (some "token") request entered ≡ (continued (context_of reply), w'))
    × (lets_through reply ≡ true
        → (user : User) × (session : Session) × IsLoggedIn auth (some "token") entered user session
          × (context_of reply ≡ record request { user = some user; session = some session }))
require_auth_gate_example = require_auth_gate auth (some "token") request entered

csrf_protection_iff_example :
    (lets_through
        (csrf_protection "POST" "/monitors" "token" (record request { session = some session }))
      ≡ true)
    ↔ IsSafe "POST" "/monitors" "token" (record request { session = some session })
csrf_protection_iff_example =
    csrf_protection_iff "POST" "/monitors" "token" (record request { session = some session })
