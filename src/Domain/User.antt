-- ===== src/Domain/User.antt =====
-- domain/user.go, domain/session.go: users, their passwords and their sessions.
-- The compiled email pattern and bcrypt are parameters. A text's length is its bytes, as in Go.
use webtracker.Shared.{inr, inl, ◌≤◌, ◌≡◌, Bool, true, false, not, String, arith, str_eq, leb, ltb}
use webtracker.Shared.Clock.{Instant}
use webtracker.Shared.Errors.{Result-cases, Error, Result, Outcome, ok, err, failure}
use webtracker.Domain.Monitor.{then_check, require}
use Prim.Native.String.{len}

pub record User : Type 0 where
  pub id : String
  pub email : String
  pub password_hash : String
  pub name : String
  pub created_at : Instant
  pub updated_at : Instant

pub record Session : Type 0 where
  pub id : String
  pub user_id : String
  pub csrf_token : String
  pub expires_at : Instant
  pub created_at : Instant

-- `time.Now().After(s.ExpiresAt)`.
abbrev pub is_expired : Session → Instant → Bool
is_expired s now = ltb s.expires_at now

unfoldable pub validate_password : String → Outcome
validate_password password =
    then_check (require (not (str_eq password "")) "password is required") (
      then_check (require (leb 8 (len password)) "password must be at least 8 characters")
        (require (leb (len password) 72) "password must be 72 characters or less"))

-- What the program uses of package bcrypt, at its cost factor.
pub record Bcrypt : Type 0 where
  pub generate_from_password : String → Result String
  pub compare_hash_and_password : String → String → Outcome
  pub matches_generated :
      (password hash : String)
      → generate_from_password password ≡ ok hash
      → compare_hash_and_password hash password ≡ ok tt

module _ (matches_email : String → Bool) where
  unfoldable pub validate_email : String → Outcome
  validate_email email = then_check (require (not (str_eq email "")) "email is required") (
      then_check (require (leb (len email) 255) "email must be 255 characters or less")
        (require (matches_email email) "invalid email format"))

  unfoldable pub validate_user : User → Outcome
  validate_user u = then_check (require (not (str_eq u.name "")) "name is required") (
      then_check (require (leb (len u.name) 255) "name must be 255 characters or less") (
        then_check (validate_email u.email)
          (require (not (str_eq u.password_hash "")) "password hash is required")))

module _ (bcrypt : Bcrypt) where
  store_hash : User → Result String → Outcome × User
  store_hash u (ok hash) = (ok tt, record u { password_hash = hash })
  store_hash u (err e) = (err (failure "failed to hash password"), u)

  set_valid_password : User → String → Outcome → Outcome × User
  unfolding store_hash
  set_valid_password u plaintext (ok _) = store_hash u (bcrypt.generate_from_password plaintext)
  set_valid_password u plaintext (err e) = (err e, u)

  unfoldable pub set_password : User → String → Outcome × User
  unfolding set_valid_password
  set_password u plaintext = set_valid_password u plaintext (validate_password plaintext)

  abbrev accepted : Outcome → Bool
  accepted (ok _) = true
  accepted (err _) = false

  unfoldable pub check_password : User → String → Bool
  check_password u plaintext = accepted (bcrypt.compare_hash_and_password u.password_hash plaintext)

  pub set_password_keeps :
      (u : User) (plaintext : String)
      → let u' = (set_password u plaintext).1 in (u'.email ≡ u.email) × (u'.name ≡ u.name)
  unfolding set_password
  set_password_keeps u plaintext = ground arith

  -- A password that could be set is accepted afterwards and has 8 to 72 bytes; one that could not
  -- leaves the user as it was.
  pub check-set_password :
      (u : User) (plaintext : String)
      → let (r, u') = set_password u plaintext in
        (r ≡ ok tt
          → (check_password u' plaintext ≡ true)
            × (8 ≤ len plaintext)
            × (len plaintext ≤ 72)
            × (u' ≡ record u { password_hash = u'.password_hash }))
        × ((e : Error) → r ≡ err e → u' ≡ u)
  unfolding set_password check_password validate_password
  check-set_password u plaintext = elim (Result-cases (bcrypt.generate_from_password plaintext)) [
    | inl (hash, e) ↦ ground (arith, bcrypt.matches_generated plaintext hash e, e)
    | inr (x, e) ↦ ground (arith, e)
  ]
