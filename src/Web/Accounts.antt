-- ===== src/Web/Accounts.antt =====
-- interface/http/auth_handlers.go: the pages for login, registration and logout.
-- A request is its form, its cookies and whether the context has a user. Timeouts of the calls and
-- the HTML of the pages are left out.
pub mod Signup
use webtracker.Shared.{
  ℕ, Bool, false, not, ◌&&◌, ◌||◌, Option, none, some, String, List, [], ◌∷◌, ◌++◌, if◌then◌else◌,
  ltb, is_empty, str_eq,
}
use Prim.Native.String.{len}
use webtracker.Domain.User.{User, Session}
use webtracker.Auth.{AuthService, login, register, logout}
use webtracker.Shared.Int.{ℤ, pos, div_int64}
use webtracker.Shared.Clock.{seconds}
use webtracker.Shared.Errors.{Error, Result, ok, err}
use webtracker.Shared.Effects.{M}

pub data AuthPage : Type 0 where
  login_page : ℕ → (email error csrf_token : String) → AuthPage
  register_page :
      ℕ → (name email : String) → List (String × String) → (csrf_token : String) → AuthPage
  internal_error : AuthPage
  sent_to : String → AuthPage

-- What the response does to a cookie.
pub data CookieChange : Type 0 where
  kept cleared : CookieChange
  set_to : String → ℤ → CookieChange

pub record AuthReply : Type 0 where
  pub page : AuthPage
  pub session_cookie : CookieChange
  pub csrf_cookie : CookieChange

abbrev pub csrf_cookie_ttl : ℤ
csrf_cookie_ttl = pos 600

abbrev just : AuthPage → AuthReply
just page = record { page = page; session_cookie = kept; csrf_cookie = kept }

pub record AuthHandler (W : Type 0) : Type 0 where
  pub auth_service : Option (AuthService W)
  pub generate_csrf_token : M W String

-- The form token matches the cookie, which may be missing.
unfoldable pub validate_csrf : (String → String) → Option String → Bool
validate_csrf form none = false
validate_csrf form (some cookie) =
    not (str_eq (form "csrf_token") "") && str_eq (form "csrf_token") cookie

abbrev when_missing : Bool → String → String → List (String × String)
when_missing b key text = if b then (key, text) ∷ [] else []

abbrev password_errors : String → List (String × String)
password_errors password =
    if str_eq password ""
    then ("password", "Password is required") ∷ []
    else when_missing (ltb (len password) 8) "password" "Password must be at least 8 characters"

abbrev confirm_errors : String → String → List (String × String)
confirm_errors password confirm =
    if str_eq confirm ""
    then ("password_confirm", "Please confirm your password") ∷ []
    else when_missing (not (str_eq password confirm)) "password_confirm" "Passwords do not match"

unfoldable pub validate_registration : String → String → String → String → List (String × String)
validate_registration name email password confirm =
    when_missing (str_eq name "") "name" "Name is required"
    ++ (when_missing (str_eq email "") "email" "Email is required"
        ++ (password_errors password ++ confirm_errors password confirm))

-- `int(h.authService.GetSessionTTL().Seconds())`, for whole seconds.
abbrev pub session_max_age : {W : Type 0} → AuthService W → ℤ
session_max_age auth = div_int64 auth.session_ttl (seconds 1)

unfoldable pub logged_in : {W : Type 0} → AuthService W → Session → AuthReply
logged_in auth session = record {
  page = sent_to "/";
  session_cookie = set_to session.id (session_max_age auth);
  csrf_cookie = cleared;
}

module _ {W : Type 0} (h : AuthHandler W) where
  csrf_page : (String → AuthPage) → Result String × W → AuthReply × W
  csrf_page page (err e, w) = (just internal_error, w)
  csrf_page page (ok token, w) = (
    record { page = page token; session_cookie = kept; csrf_cookie = set_to token csrf_cookie_ttl },
    w,
  )

  -- A page with a form, and its new token in a cookie.
  unfoldable pub with_csrf_cookie : (String → AuthPage) → W → AuthReply × W
  unfolding csrf_page
  with_csrf_cookie page w = csrf_page page (h.generate_csrf_token w)

  unfoldable pub show_login_form : Option User → W → AuthReply × W
  unfolding with_csrf_cookie
  show_login_form (some user) w = (just (sent_to "/"), w)
  show_login_form none w = with_csrf_cookie (login_page 200 "" "") w

  unfoldable pub show_register_form : Option User → W → AuthReply × W
  unfolding with_csrf_cookie
  show_register_form (some user) w = (just (sent_to "/"), w)
  show_register_form none w = with_csrf_cookie (register_page 200 "" "" []) w

  unfoldable pub render_login_error : String → String → W → AuthReply × W
  unfolding with_csrf_cookie
  render_login_error email text w = with_csrf_cookie (login_page 401 email text) w

  unfoldable pub render_register_error :
      String → String → List (String × String) → W → AuthReply × W
  unfolding with_csrf_cookie
  render_register_error name email errors w =
      with_csrf_cookie (register_page 400 name email errors) w

  login_reply : AuthService W → String → Result Session × W → AuthReply × W
  unfolding render_login_error logged_in
  login_reply auth email (err e, w) = render_login_error email "Invalid email or password." w
  login_reply auth email (ok session, w) = (logged_in auth session, w)

  login_with : Option (AuthService W) → String → String → W → AuthReply × W
  unfolding login_reply
  login_with none email password w = (just internal_error, w)
  login_with (some auth) email password w = login_reply auth email (login auth email password w)

  unfoldable pub submit_login : (String → String) → Option String → W → AuthReply × W
  unfolding validate_csrf render_login_error login_with
  submit_login form cookie w =
      if not (validate_csrf form cookie)
      then render_login_error "" "Invalid request. Please try again." w
      else if str_eq (form "email") "" || str_eq (form "password") ""
      then render_login_error (form "email") "Email and password are required." w
      else login_with h.auth_service (form "email") (form "password") w

  auto_login : AuthService W → Result Session × W → AuthReply × W
  unfolding logged_in
  auto_login auth (err e, w) = (just (sent_to "/login"), w)
  auto_login auth (ok session, w) = (logged_in auth session, w)

module _ {W : Type 0} (h : AuthHandler W) (error_text : Error → String) where
  registered_reply : AuthService W → String → String → String → Result User × W → AuthReply × W
  unfolding auto_login render_register_error
  registered_reply auth name email password (err e, w) =
      render_register_error h name email (("general", error_text e) ∷ []) w
  registered_reply auth name email password (ok user, w) =
      auto_login h auth (login auth email password w)

  register_with : Option (AuthService W) → String → String → String → W → AuthReply × W
  unfolding registered_reply
  register_with none name email password w = (just internal_error, w)
  register_with (some auth) name email password w =
      registered_reply auth name email password (register auth email password name w)

  unfoldable pub submit_register : (String → String) → Option String → W → AuthReply × W
  unfolding validate_csrf render_register_error register_with validate_registration
  submit_register form cookie w =
      let errors =
        validate_registration (form "name") (form "email") (form "password")
          (form "password_confirm") in
      if not (validate_csrf form cookie)
      then render_register_error h "" "" (("general", "Invalid request. Please try again.") ∷ []) w
      else if not (is_empty errors)
      then render_register_error h (form "name") (form "email") errors w
      else register_with h.auth_service (form "name") (form "email") (form "password") w

module _ {W : Type 0} (h : AuthHandler W) where
  abbrev logged_out : AuthReply
  logged_out = record { page = sent_to "/login"; session_cookie = cleared; csrf_cookie = kept }

  end_session : Option (AuthService W) → String → W → W
  end_session none id w = w
  end_session (some auth) id w = if str_eq id "" then w else (logout auth id w).1

  unfoldable pub submit_logout : Option String → W → AuthReply × W
  unfolding end_session
  submit_logout none w = (logged_out, w)
  submit_logout (some id) w = (logged_out, end_session h.auth_service id w)
