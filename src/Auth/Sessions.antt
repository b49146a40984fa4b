-- ===== src/Auth/Sessions.antt =====
-- auth_service.go: what a login gives, and how long it lasts.
use webtracker.Shared.{◌≡◌, refl, true, false, Option, none, some, String}
use webtracker.Shared.Errors.{Error, Result, Outcome, ok, err, failure}
use webtracker.Domain.User.{User, Session, check_password}
use webtracker.Auth.{AuthService, login, login_as, normal}

abbrev pub Gets : Option Session → Result Session → Type 0
Gets none r = (e : Error) × (r ≡ err e)
Gets (some session) r = r ≡ ok session

abbrev pub IfDone : Outcome → Type 0 → Type 0
IfDone (ok _) P = P
IfDone (err e) P = Unit

-- The table of sessions: what is created is found under its id.
pub record SessionTable {W : Type 0} (s : AuthService W) (live : W → String → Option Session)
    : Type 0 where
  pub get_live : (id : String) (w : W) → Gets (live w id) (s.sessions.get_by_id id w).0
  pub create_live :
      (session : Session) (w : W)
      → let (r, w') = s.sessions.create session w in IfDone r (live w' session.id ≡ some session)

module _ {W : Type 0} (s : AuthService W) (live : W → String → Option Session)
    (table : SessionTable s live) where
  pub record IsSessionOf (user_id : String) (session : Session) (w : W) : Type 0 where
    pub owner : session.user_id ≡ user_id
    pub stored : live w session.id ≡ some session

  -- Who logs in: a user with that email and password.
  pub record IsLogin (email password : String) (w : W) (session : Session) (after : W)
      : Type 0 where
    pub user : User
    pub registered : (s.users.get_by_email (normal s email) w).0 ≡ ok user
    pub accepted : check_password s.bcrypt user password ≡ true
    pub session_of : IsSessionOf user.id session after

  -- An unknown email and a wrong password are refused by the same error, without a session.
  pub login_refusals :
      (email password : String) (w : W)
      → let r = (s.users.get_by_email (normal s email) w).0 in
        let refusal : Result Session × W = (
          err (failure "invalid email or password"),
          (s.users.get_by_email (normal s email) w).1,
        ) in
        ((e : Error) → r ≡ err e → login s email password w ≡ refusal)
        × ((user : User)
            → r ≡ ok user
            → check_password s.bcrypt user password ≡ false
            → login s email password w ≡ refusal)
  unfolding login login_as
  login_refusals email password w = (λ e h. rw h refl, λ user h wrong. rw (h, wrong) refl)
