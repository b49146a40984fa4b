-- ===== src/Web/Accounts/Signup.antt =====
-- auth_handlers.go with auth_service.go: a registration by the form logs the new user in.
use webtracker.Shared.{◌≡◌, refl, ap, true, Option, some, String, []}
use webtracker.Shared.Errors.{Error, Result, ok, err}
use webtracker.Shared.Effects.{in_context}
use webtracker.Domain.User.{User, Session}
use webtracker.Auth.{AuthService, register, create_session, normal}
use webtracker.Auth.Signup.{FindsCreated, login-register}
use webtracker.Web.Accounts.{
  AuthHandler, AuthReply, sent_to, submit_register, validate_csrf, validate_registration, logged_in,
  auto_login, registered_reply, register_with,
}

-- What a registration leads to once the user is stored: the session, or the page for logins.
abbrev pub Welcomes : {W : Type 0} → AuthService W → Result Session → AuthReply → Type 0
Welcomes auth (ok session) reply = reply ≡ logged_in auth session
Welcomes auth (err e) reply = reply.page ≡ sent_to "/login"

module _ {W : Type 0} (h : AuthHandler W) (error_text : Error → String) where
  auto_login_lem :
      (auth : AuthService W) (created : Result Session) (r : Result Session × W)
      → r.0 ≡ in_context "failed to create session" created
      → Welcomes auth created (auto_login h auth r).0
  unfolding auto_login
  auto_login_lem auth (ok session) (ok s, w) e =
      let same : s ≡ session = cc in ap (λ (t : Session). logged_in auth t) same
  auto_login_lem auth (ok session) (err x, w) e = cc
  auto_login_lem auth (err x) (ok s, w) e = cc
  auto_login_lem auth (err x) (err y, w) e = refl

  -- A registration form with a valid token and no error in its fields, whose user the service
  -- registers: the user has the email, trimmed and in lower case, and if a session can be made for
  -- that user then the reply sets its cookie and leads to the dashboard, and else to the login.
  -- It is assumed that a user that was just created is found under its email as it was created, but
  -- for its times, which the repository may fill in.
  pub registered_is_logged_in :
      (auth : AuthService W) (form : String → String) (cookie : Option String) (w : W) (user : User)
      → h.auth_service ≡ some auth
      → FindsCreated auth
      → validate_csrf form cookie ≡ true
      → validate_registration
          (form "name")
          (form "email")
          (form "password")
          (form "password_confirm")
        ≡ []
      → (register auth (form "email") (form "password") (form "name") w).0 ≡ ok user
      → (user.email ≡ normal auth (form "email"))
        × Welcomes auth
            (create_session auth user.id
              (auth.users.get_by_email
                (normal auth (form "email"))
                (register auth (form "email") (form "password") (form "name") w).1).1).0
            (submit_register h error_text form cookie w).0
  unfolding submit_register register_with registered_reply
  registered_is_logged_in auth form cookie w user e table c v r =
      let (email, _, logs_in) =
        login-register auth (form "email") (form "password") (form "name") w user table r in
      (email, rw (submit_register, c, v, e, r) (auto_login_lem auth _ _ logs_in))
