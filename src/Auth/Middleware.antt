-- ===== src/Auth/Middleware.antt =====
-- interface/http/auth_middleware.go: requests that need a login, and the check of CSRF tokens.
-- A request is its cookie `session_id`, its method, its path and its form field `csrf_token`.
use webtracker.Shared.{
  ◌≡◌, ◌≢◌, ◌↔◌, [], ◌∷◌, inl, inr, refl, Bool, true, false, not, ◌||◌, Option, none, some, String,
  if◌then◌else◌, str_eq, eq_iff, str_eq_ne, arith, Option-cases, Bool-cases,
}
use webtracker.Shared.Errors.{Result, Result-cases, ok, err}
use webtracker.Domain.User.{User, Session}
use webtracker.Config.Rules.{IsOneOf}
use webtracker.Auth.{AuthService, validate_session}

-- What the middleware sets: the user and the session, and whether the cookie is cleared.
pub record Context : Type 0 where
  pub user : Option User
  pub session : Option Session
  pub cookie_cleared : Bool

pub data Reply : Type 0 where
  continued : Context → Reply
  redirected_to_login : Context → Reply
  forbidden : Context → Reply

abbrev pub context_of : Reply → Context
context_of (continued c) = c
context_of (redirected_to_login c) = c
context_of (forbidden c) = c

abbrev pub lets_through : Reply → Bool
lets_through (continued c) = true
lets_through _ = false

unfoldable pub csrf_protection : String → String → String → Context → Reply
csrf_protection method path form c =
    if str_eq method "GET" || str_eq method "HEAD" || str_eq method "OPTIONS"
    then continued c
    else if str_eq path "/logout"
    then continued c
    else elim c.session [
      | none ↦ forbidden c
      | some session ↦
          if str_eq form "" || not (str_eq form session.csrf_token)
          then forbidden c
          else continued c
    ]

abbrev loaded : Context → Result (User × Session) → Reply
loaded c (ok (user, session)) = continued (record c { user = some user; session = some session })
loaded c (err e) = continued (record c { cookie_cleared = true })

abbrev required : Context → Result (User × Session) → Reply
required c (ok (user, session)) = continued (record c { user = some user; session = some session })
required c (err e) = redirected_to_login (record c { cookie_cleared = true })

module _ {W : Type 0} where
  unfoldable pub load_user : Option (AuthService W) → Option String → Context → W → Reply × W
  load_user none cookie c w = (continued c, w)
  load_user (some auth) none c w = (continued c, w)
  load_user (some auth) (some id) c w =
      if str_eq id ""
      then (continued c, w)
      else let (r, w') = validate_session auth id w in (loaded c r, w')

  unfoldable pub require_auth : AuthService W → Option String → Context → W → Reply × W
  require_auth auth none c w = (redirected_to_login c, w)
  require_auth auth (some id) c w =
      if str_eq id ""
      then (redirected_to_login c, w)
      else let (r, w') = validate_session auth id w in (required c r, w')

  -- A cookie whose session the service accepts.
  pub record IsLoggedIn (auth : AuthService W) (cookie : Option String) (w : W) (user : User)
      (session : Session) : Type 0 where
    pub id : String
    pub sent : cookie ≡ some id
    pub validated : (validate_session auth id w).0 ≡ ok (user, session)

  -- RequireAuth and LoadUser set the same context and leave the same state. LoadUser lets every
  -- request through; RequireAuth lets one through only if its cookie holds a session that the
  -- service accepts, and then the context holds that session and its user.
  pub require_auth_gate :
      (auth : AuthService W) (cookie : Option String) (c : Context) (w : W)
      → let (reply, w') = require_auth auth cookie c w in
        (load_user (some auth) cookie c w ≡ (continued (context_of reply), w'))
        × (lets_through reply ≡ true
            → (user : User) × (session : Session) × IsLoggedIn auth cookie w user session
              × (context_of reply ≡ record c { user = some user; session = some session }))
  unfolding load_user require_auth
  require_auth_gate auth none c w = (refl, λ e. cc)
  require_auth_gate auth (some id) c w = elim (Bool-cases (str_eq id "")) [
    | inl e ↦ rw e (refl, λ f. cc)
    | inr e ↦ elim (Result-cases (validate_session auth id w).0) [
      | inl ((user, session), f) ↦
          rw (e, f)
            (refl, λ g. (user, session, record { id = id; sent = refl; validated = f }, refl))
      | inr (x, f) ↦ rw (e, f) (refl, λ g. cc)
    ]
  ]

-- A request that CSRFProtection lets through.
pub data IsSafe (method path form : String) (c : Context) : Type 0 where
  reads : IsOneOf method ("GET" ∷ "HEAD" ∷ "OPTIONS" ∷ []) → IsSafe method path form c
  logs_out : path ≡ "/logout" → IsSafe method path form c
  sends_token :
      (session : Session)
      → c.session ≡ some session
      → form ≢ ""
      → form ≡ session.csrf_token
      → IsSafe method path form c

csrf_sound :
    (method path form : String) (c : Context)
    → lets_through (csrf_protection method path form c) ≡ true
    → IsSafe method path form c
unfolding csrf_protection
csrf_sound method path form c h =
    elim (Bool-cases (str_eq method "GET" || str_eq method "HEAD" || str_eq method "OPTIONS")) [
      | inl e ↦
          reads
            (ground (arith, e, eq_iff method "GET", eq_iff method "HEAD", eq_iff method "OPTIONS"))
      | inr e ↦ elim (Bool-cases (str_eq path "/logout")) [
        | inl f ↦ logs_out (ground (arith, f, eq_iff path "/logout"))
        | inr f ↦ elim (Option-cases c.session) [
          | inl g ↦ absurd (let k = rw (csrf_protection, e, f, g) at h in cc)
          | inr (session, g) ↦
              let k = rw (csrf_protection, e, f, g) at h in
              sends_token session g (λ i. ground (arith, k, eq_iff form "", i))
                (ground (arith, k, eq_iff form session.csrf_token))
        ]
      ]
    ]

csrf_complete :
    (method path form : String) (c : Context)
    → IsSafe method path form c
    → lets_through (csrf_protection method path form c) ≡ true
unfolding csrf_protection
csrf_complete method path form c (reads m) =
    ground (arith, eq_iff method "GET", eq_iff method "HEAD", eq_iff method "OPTIONS")
csrf_complete method path form c (logs_out p) = ground (arith, eq_iff path "/logout")
csrf_complete method path form c (sends_token session e ne same) =
    ground (arith, e, str_eq_ne form "" ne, eq_iff form session.csrf_token)

-- CSRFProtection lets a request through exactly if its method is GET, HEAD or OPTIONS, if it is a
-- logout, or if it sends the token of the session in the context, which is not empty.
pub csrf_protection_iff :
    (method path form : String) (c : Context)
    → (lets_through (csrf_protection method path form c) ≡ true) ↔ IsSafe method path form c
csrf_protection_iff method path form c =
    (csrf_sound method path form c, csrf_complete method path form c)
