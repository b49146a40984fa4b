-- ===== src/Examples/Signups.antt =====
-- Registrations over a table of users in memory.
use webtracker.Shared.{
  ◌≡◌, refl, true, Option, none, some, String, List, [], if◌then◌else◌, str_eq, str_eq_refl,
}
use webtracker.Shared.Int.{pos}
use webtracker.Shared.Clock.{hours}
use webtracker.Shared.Errors.{Error, Result, ok, err, failure}
use webtracker.Shared.Dict.{lookup, store, lookup-store}
use webtracker.Domain.User.{User, set_password, validate_password, validate_email}
use webtracker.Auth.{AuthService, register, register_new, create_session, normal}
use webtracker.Auth.Signup.{FindsCreated}
use webtracker.Web.Accounts.{AuthHandler, submit_register, validate_csrf, validate_registration}
use webtracker.Web.Accounts.Signup.{Welcomes, registered_is_logged_in}
use webtracker.Examples.Logins.{plain}

abbrev Users : Type 0
Users = List (String × User)

abbrev or_missing : {A : Type 0} → Option A → Result A
or_missing none = err (failure "not found")
or_missing (some a) = ok a

-- The times that the table fills in.
abbrev dated : User → User
dated u = record u { created_at = hours 1; updated_at = hours 1 }

abbrev auth : AuthService Users
auth = record {
  users = record {
    create = λ u w. (ok tt, store u.email (dated u) w);
    get_by_id = λ id w. (err (failure "not found"), w);
    get_by_email = λ email w. (or_missing (lookup email w), w);
  };
  sessions = record {
    create = λ session w. (ok tt, w);
    get_by_id = λ id w. (err (failure "not found"), w);
    delete_by_id = λ id w. (ok tt, w);
    delete_expired = λ w. (ok tt, w);
  };
  session_ttl = pos (hours 24);
  clock = λ w. (hours 1, w);
  new_id = λ w. ("u1", w);
  new_token = λ w. (ok "token", w);
  bcrypt = plain;
  matches_email = λ email. true;
  to_lower = λ s. s;
  trim_space = λ s. s;
}

finds : FindsCreated auth
finds = record {
  finds = λ u w e.
      (dated u, rw (lookup-store u.email u.email (dated u) w, str_eq_refl u.email) refl, refl);
}

abbrev handler : AuthHandler Users
handler = record { auth_service = some auth; generate_csrf_token = λ w. (ok "fresh", w) }

abbrev signup : String → String
signup key =
    if str_eq key "name"
    then "Ann"
    else if str_eq key "email"
    then "ann@example.com"
    else if str_eq key "csrf_token"
    then "t"
    else "correct horse"

abbrev ann : User
ann = record {
  id = "u1";
  email = "ann@example.com";
  password_hash = "correct horse";
  name = "Ann";
  created_at = 0;
  updated_at = 0;
}

abbrev text_of : Error → String
text_of e = "error"

registered_is_logged_in_example :
    (ann.email ≡ normal auth "ann@example.com")
    × Welcomes auth
        (create_session auth "u1"
          (auth.users.get_by_email
            (normal auth "ann@example.com")
            (register auth "ann@example.com" "correct horse" "Ann" []).1).1).0
        (submit_register handler text_of signup (some "t") []).0
unfolding register register_new set_password validate_password validate_email validate_csrf
    validate_registration lookup
registered_is_logged_in_example =
    registered_is_logged_in handler text_of auth signup (some "t") [] ann refl finds refl refl refl
