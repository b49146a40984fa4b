-- ===== src/Auth/Signup.antt =====
-- auth_service.go: a registration, and the login after it.
use webtracker.Shared.{◌≡◌, inl, inr, refl, ap, ◌∙◌, true, String, arith, str_eq, Bool-cases}
use webtracker.Shared.Errors.{Result, Outcome, ok, err, Result-cases}
use webtracker.Shared.Effects.{in_context}
use webtracker.Domain.User.{set_password_keeps, check-set_password, User, check_password}
use webtracker.Auth.{
  create_session, validate_password, validate_email, login_as, normal, new_user, login, register,
  register_new, set_password, AuthService, store_user,
}

-- A user but for its times: `Create` of the repository fills them in.
abbrev pub account : User → User
account user = record user { created_at = 0; updated_at = 0 }

-- A user that was just created is, but for its times, the one found under its email.
pub record FindsCreated {W : Type 0} (s : AuthService W) : Type 0 where
  pub finds :
      (user : User) (w : W)
      → (s.users.create user w).0 ≡ ok tt
      → (found : User) × ((s.users.get_by_email user.email (s.users.create user w).1).0 ≡ ok found)
        × (account found ≡ account user)

module _ {W : Type 0} (s : AuthService W) where
  -- The last call of a registration that succeeds stores the user, with the email and the password.
  record IsRegistered (email password name : String) (user : User) (after : W) : Type 0 where
    pub before : W
    pub created : (s.users.create user before).0 ≡ ok tt
    pub last_call : after ≡ (s.users.create user before).1
    pub email_set : user.email ≡ email
    pub accepted : check_password s.bcrypt user password ≡ true
    pub named : user.name ≡ name

  stored_lem :
      (email password name : String) (r : Outcome × User) (w : W) (user : User)
      → r.1.email ≡ email
      → r.1.name ≡ name
      → (r.0 ≡ ok tt → check_password s.bcrypt r.1 password ≡ true)
      → (store_user s r w).0 ≡ ok user
      → IsRegistered email password name user (store_user s r w).1
  unfolding store_user
  stored_lem email password name (err e, u) w user f n k h = cc
  stored_lem email password name (ok _, u) w user f n k h =
      elim (Result-cases (s.users.create u w).0) [
        | inr (x, e) ↦ absurd (ground (arith, e, h))
        | inl (_, e) ↦
            let same : u ≡ user = ground (arith, e, h) in
            record {
              before = w;
              created = rw (← same) e;
              last_call = rw (← same, e) refl;
              email_set = rw (← same) f;
              accepted = rw (← same) (k refl);
              named = rw (← same) n;
            }
      ]

  register_new_lem :
      (existing : Result User) (email password name : String) (w : W) (user : User)
      → (register_new s existing email password name w).0 ≡ ok user
      → IsRegistered email password name user (register_new s existing email password name w).1
  unfolding register_new
  register_new_lem (ok u) email password name w user h = cc
  register_new_lem (err e) email password name w user h =
      let fresh = new_user s (s.new_id w).0 email name in
      let (same, named) = set_password_keeps s.bcrypt fresh password in
      stored_lem email password name (set_password s.bcrypt fresh password) (s.new_id w).1 user same
        named (λ e. ((check-set_password s.bcrypt fresh password).0 e).0) h

  register_lem :
      (email password name : String) (w : W) (user : User)
      → (register s email password name w).0 ≡ ok user
      → IsRegistered
          (normal s email)
          password
          (s.trim_space name)
          user
          (register s email password name w).1
  unfolding register
  register_lem email password name w user h =
      elim (Result-cases (validate_email s.matches_email (normal s email))) [
        | inr (x, e) ↦ absurd (ground (arith, e, h))
        | inl (_, e) ↦ elim (Result-cases (validate_password password)) [
          | inr (x, f) ↦ absurd (ground (arith, e, f, h))
          | inl (_, f) ↦ elim (Bool-cases (str_eq (s.trim_space name) "")) [
            | inl g ↦ absurd (ground (arith, e, f, g, h))
            | inr g ↦
                rw (register, e, f, g)
                  (register_new_lem _ (normal s email) password (s.trim_space name) _ user
                    (rw (register, e, f, g) at h))
          ]
        ]
      ]

  same_password :
      (found user : User) (password : String)
      → account found ≡ account user
      → check_password s.bcrypt user password ≡ true
      → check_password s.bcrypt found password ≡ true
  unfolding check_password
  same_password found user password e h =
      let same : found.password_hash ≡ user.password_hash = ap (λ u. u.password_hash) e in rw same h

  -- A login with the right password makes a session.
  login_lem :
      (email password : String) (user : User) (w : W)
      → (s.users.get_by_email (normal s email) w).0 ≡ ok user
      → check_password s.bcrypt user password ≡ true
      → (login s email password w).0
        ≡ in_context "failed to create session"
            (create_session s user.id (s.users.get_by_email (normal s email) w).1).0
  unfolding login login_as
  login_lem email password user w e f = rw (login, e, f) refl

  -- The login after a registration is that of the new user: it goes on to make a session.
  pub login-register :
      (email password name : String) (w : W) (user : User)
      → FindsCreated s
      → (register s email password name w).0 ≡ ok user
      → (user.email ≡ normal s email)
        × (user.name ≡ s.trim_space name)
        × ((login s email password (register s email password name w).1).0
            ≡ in_context "failed to create session"
                (create_session s user.id
                  (s.users.get_by_email (normal s email) (register s email password name w).1).1).0)
  login-register email password name w user table h =
      let r = register_lem email password name w user h in
      let (found, finds, same) = table.finds user r.before r.created in
      let id : found.id ≡ user.id = ap (λ u. u.id) same in
      let after = (s.users.get_by_email (normal s email) (register s email password name w).1).1 in
      (
        r.email_set,
        r.named,
        login_lem email password found _ (rw (r.last_call, ← r.email_set) finds)
              (same_password found user password same r.accepted)
            ∙ ap (λ i. in_context "failed to create session" (create_session s i after).0) id,
      )
