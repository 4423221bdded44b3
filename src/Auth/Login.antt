-- ===== src/Auth/Login.antt =====
-- The routes of backend/app/api/routes/auth.py. The rate limit in front of them, the audit rows
-- and the cookies that they set are left out.
use aegisiq.Auth.Accounts.{Policy, Crypto, Accounts, find_user, put_user}
use aegisiq.Auth.Lockout.{is_locked, register_failure, after_success}
use aegisiq.Auth.Mfa.{is_active, is_no_match, login_requires_second_factor, verify_code}
use aegisiq.Auth.Password.{validate}
use aegisiq.Auth.Tokens.{Claims, Jose, create_access_token, create_mfa_challenge_token, version}
use aegisiq.Models.User.{User}
use aegisiq.Prelude.{
  ℕ, ◌+◌, String, Bool, true, false, not, none, some, List, [], ◌∷◌, if◌then◌else◌,
}

pub data LoginResult : Type 0 where
  -- 401 with one body, whatever the reason
  refused : LoginResult
  second_factor : (challenge : String) → LoginResult
  enrollment_required : (challenge : String) → LoginResult
  session : (token : String) → LoginResult

-- the row that a completed login leaves
unfoldable pub signed_in_row : ℕ → User → User
unfolding after_success
signed_in_row now user = record (after_success user) { last_login = some now }

module _ (jose : Jose) (policy : Policy) (crypto : Crypto) where
  -- a login whose password was right
  unfoldable pub password_passed : ℕ → User → Accounts → LoginResult × Accounts
  unfolding signed_in_row
  password_passed now user db =
      if login_requires_second_factor policy user db
      then (
        if is_active user db
            then second_factor (create_mfa_challenge_token jose now user)
            else enrollment_required (create_mfa_challenge_token jose now user),
        db,
      )
      else (
        session (create_access_token jose policy now user),
        put_user (signed_in_row now user) db,
      )

  -- a login of a user of the table
  unfoldable pub login_user : ℕ → User → String → Accounts → LoginResult × Accounts
  unfolding password_passed
  login_user now user password db =
      if is_locked now user
      then (refused, db)
      else if not user.is_active
      then (refused, db)
      else if not (crypto.verify_password password user.password_hash)
      then (refused, (register_failure policy now user db).1)
      else password_passed now user db

  -- `login`
  unfoldable pub login : ℕ → String → String → Accounts → LoginResult × Accounts
  unfolding login_user
  login now username password db = elim (find_user username db) [
    | none ↦ (refused, db)
    | some user ↦ login_user now user password db
  ]

  -- the second step for a user of the table
  unfoldable pub verify_user : ℕ → User → String → Accounts → LoginResult × Accounts
  unfolding signed_in_row
  verify_user now user code db =
      if is_no_match (verify_code policy crypto now user code db).0
      then (refused, (verify_code policy crypto now user code db).1)
      else (
        session (create_access_token jose policy now user),
        put_user (signed_in_row now user) (verify_code policy crypto now user code db).1,
      )

  unfoldable pub verify_claims : ℕ → Claims → String → Accounts → LoginResult × Accounts
  unfolding verify_user
  verify_claims now claims code db = elim claims.sub [
    | none ↦ (refused, db)
    | some name ↦ if not claims.mfa_pending then (refused, db) else elim (find_user name db) [
      | none ↦ (refused, db)
      | some user ↦ verify_user now user code db
    ]
  ]

  -- `mfa_verify`
  unfoldable pub mfa_verify : ℕ → String → String → Accounts → LoginResult × Accounts
  unfolding verify_claims
  mfa_verify now token code db = elim (jose.decode now token) [
    | none ↦ (refused, db)
    | some claims ↦ verify_claims now claims code db
  ]

pub data PasswordReply : Type 0 where
  wrong_password policy_violation same_password changed : PasswordReply

unfoldable pub revoked_row : User → User
revoked_row user = record user { token_version = version user.token_version + 1 }

unfoldable pub changed_row : Crypto → ℕ → String → User → User
changed_row crypto now password user = record user {
  password_hash = crypto.hash_password password;
  token_version = version user.token_version + 1;
  password_changed_at = some now;
}

abbrev pub is_clean {ℓ} : {A : Type ℓ} → List A → Bool
is_clean [] = true
is_clean (e ∷ es) = false

-- `change_password` of the current user
unfoldable pub change_password :
    Crypto → ℕ → User → String → String → Accounts → PasswordReply × Accounts
unfolding changed_row
change_password crypto now user current new db =
    if not (crypto.verify_password current user.password_hash)
    then (wrong_password, db)
    else if not (is_clean (validate new user.username))
    then (policy_violation, db)
    else if crypto.verify_password new user.password_hash
    then (same_password, db)
    else (changed, put_user (changed_row crypto now new user) db)

-- `logout` of the current user
unfoldable pub logout : User → Accounts → Accounts
unfolding revoked_row
logout user db = put_user (revoked_row user) db
