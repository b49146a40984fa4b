-- ===== src/Auth.antt =====
-- usecase/auth_service.go: registration, login and sessions.
-- The repositories, the clock, ids, random tokens, bcrypt, the email pattern and the functions of
-- package strings are parameters over the state `W` of the world.
pub mod Sessions
pub mod Middleware
pub mod Signup
use webtracker.Shared.{Bool, true, false, not, String, if◌then◌else◌, str_eq}
use webtracker.Shared.Int.{pos, leb_ℤ}
use webtracker.Shared.Clock.{Instant, Duration, hours, add}
use webtracker.Shared.Errors.{Error, Result, Outcome, ok, err, failure}
use webtracker.Shared.Effects.{M, pure, fail, lift, context, attempt, ignored, ◌>>=◌, ◌>>◌}
use webtracker.Domain.User.{
  User, Session, Bcrypt, is_expired, validate_email, validate_password, set_password,
  check_password,
}

-- The methods of `domain.UserRepository` and `domain.SessionRepository` that are used.
pub record UserRepository (W : Type 0) : Type 0 where
  pub create : User → M W (Unit {0})
  pub get_by_id : String → M W User
  pub get_by_email : String → M W User

pub record SessionRepository (W : Type 0) : Type 0 where
  pub create : Session → M W (Unit {0})
  pub get_by_id : String → M W Session
  pub delete_by_id : String → M W (Unit {0})
  pub delete_expired : M W (Unit {0})

pub record AuthService (W : Type 0) : Type 0 where
  pub users : UserRepository W
  pub sessions : SessionRepository W
  pub session_ttl : Duration
  pub clock : W → Instant × W
  pub new_id : W → String × W
  pub new_token : M W String
  pub bcrypt : Bcrypt
  pub matches_email : String → Bool
  pub to_lower : String → String
  pub trim_space : String → String

-- What `NewAuthService` does to a time-to-live that is not positive.
unfoldable pub session_ttl_or_default : Duration → Duration
session_ttl_or_default ttl = if leb_ℤ ttl (pos 0) then pos (hours 24) else ttl

abbrev pub found : {A : Type 0} → Result A → Bool
found (ok a) = true
found (err e) = false

module _ {W : Type 0} (s : AuthService W) where
  -- A reading that cannot fail.
  abbrev pub read : {A : Type 0} → (W → A × W) → M W A
  read m w = let (a, w') = m w in lift (ok a) w'

  abbrev pub normal : String → String
  normal email = s.to_lower (s.trim_space email)

  abbrev pub new_user : String → String → String → User
  new_user id email name = record {
    id = id;
    email = email;
    password_hash = "";
    name = name;
    created_at = 0;
    updated_at = 0;
  }

  store_user : Outcome × User → M W User
  store_user (err e, user) = context "failed to set password" (fail e)
  store_user (ok _, user) = do context "failed to create user" (s.users.create user); pure user

  unfoldable pub register_new : Result User → String → String → String → M W User
  unfolding store_user
  register_new existing email password name =
      if found existing then fail (failure "email already registered") else do
        id ← read s.new_id
        store_user (set_password s.bcrypt (new_user id email name) password)

  unfoldable pub register : String → String → String → M W User
  unfolding register_new
  register raw_email password raw_name = do
    let email = normal raw_email
    let name = s.trim_space raw_name
    lift (validate_email s.matches_email email)
    lift (validate_password password)
    lift (if str_eq name "" then err (failure "name is required") else ok tt)
    existing ← attempt (s.users.get_by_email email)
    register_new existing email password name

  abbrev pub new_session : String → String → String → Instant → Instant → Session
  new_session user_id session_token csrf_token now created_at = record {
    id = session_token;
    user_id = user_id;
    csrf_token = csrf_token;
    expires_at = add now s.session_ttl;
    created_at = created_at;
  }

  unfoldable pub store_session : Session → M W Session
  store_session session = do
    context "failed to store session" (s.sessions.create session)
    pure session

  unfoldable pub create_session : String → M W Session
  unfolding store_session
  create_session user_id = do
    session_token ← context "failed to generate session token" s.new_token
    csrf_token ← context "failed to generate CSRF token" s.new_token
    now ← read s.clock
    created_at ← read s.clock
    store_session (new_session user_id session_token csrf_token now created_at)

  unfoldable pub login_as : Result User → String → M W Session
  login_as (err e) password = fail (failure "invalid email or password")
  login_as (ok user) password =
      if not (check_password s.bcrypt user password)
      then fail (failure "invalid email or password")
      else context "failed to create session" (create_session user.id)

  unfoldable pub login : String → String → M W Session
  unfolding login_as
  login email password = do
    user ← attempt (s.users.get_by_email (normal email))
    login_as user password

  unfoldable pub logout : String → M W (Unit {0})
  logout id = if str_eq id "" then pure tt else s.sessions.delete_by_id id

  unfoldable pub session_user : String → Session → Result User → M W (User × Session)
  session_user id session (ok user) = pure (user, session)
  session_user id session (err e) = do
    ignored (s.sessions.delete_by_id id)
    fail (failure "user not found")

  unfoldable pub check_expiry : String → Session → Instant → M W (User × Session)
  unfolding session_user
  check_expiry id session now =
      if is_expired session now
      then ignored (s.sessions.delete_by_id id) >> fail (failure "session expired")
      else do user ← attempt (s.users.get_by_id session.user_id); session_user id session user

  unfoldable pub check_session : String → Result Session → M W (User × Session)
  unfolding check_expiry
  check_session id (err e) = fail (failure "invalid session")
  check_session id (ok session) = do now ← read s.clock; check_expiry id session now

  unfoldable pub validate_session : String → M W (User × Session)
  unfolding check_session
  validate_session id =
      if str_eq id ""
      then fail (failure "session ID is required")
      else do session ← attempt (s.sessions.get_by_id id); check_session id session

  unfoldable pub cleanup_expired_sessions : M W (Unit {0})
  cleanup_expired_sessions = s.sessions.delete_expired
