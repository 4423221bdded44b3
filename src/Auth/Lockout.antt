-- ===== src/Auth/Lockout.antt =====
-- backend/app/security/lockout.py: the lock of an account after repeated wrong passwords.
use aegisiq.Auth.Accounts.{Policy, Accounts, put_user}
use aegisiq.Models.Log.{seconds}
use aegisiq.Models.User.{User}
use aegisiq.Prelude.{
  ℕ, ◌+◌, ◌-◌, ◌*◌, ◌/◌, Bool, true, false, not, ◌||◌, none, some, ltb, leb, ◌==◌, if◌then◌else◌,
  is_some,
}

unfoldable pub is_locked : ℕ → User → Bool
is_locked now user = elim user.locked_until [ none ↦ false | some until ↦ ltb now until ]

-- `seconds_remaining`
unfoldable pub seconds_remaining : ℕ → User → ℕ
seconds_remaining now user = elim user.locked_until [
  | none ↦ 0
  | some until ↦ (until - now) / 1_000_000
]

-- the row after one more failure, and whether it locked the account
unfoldable pub after_failure : Policy → ℕ → User → Bool × User
after_failure policy now user =
    if leb policy.lockout_threshold (user.failed_login_count + 1)
    then (
      true,
      record user {
        failed_login_count = 0;
        locked_until = some (now + seconds (policy.lockout_minutes * 60));
      },
    )
    else (false, record user { failed_login_count = user.failed_login_count + 1 })

unfoldable pub register_failure : Policy → ℕ → User → Accounts → Bool × Accounts
unfolding after_failure
register_failure policy now user db =
    if policy.lockout_threshold == 0
    then (false, db)
    else ((after_failure policy now user).0, put_user (after_failure policy now user).1 db)

-- the row that `register_success` leaves
unfoldable pub after_success : User → User
after_success user =
    if not (user.failed_login_count == 0) || is_some user.locked_until
    then record user { failed_login_count = 0; locked_until = none }
    else user

unfoldable pub unlock : User → Accounts → Accounts
unlock user db = put_user (record user { failed_login_count = 0; locked_until = none }) db
