-- ===== src/Auth/Accounts.antt =====
-- The tables of users and enrolments that the sign-in code reads and writes, its settings, and the
-- libraries it calls: passlib's hashes, the digests of hashlib and hmac, and the envelope of the
-- encrypted columns. `now` is an argument wherever the source reads the clock; a commit succeeds.
use aegisiq.Models.User.{User, UserMfa}
use aegisiq.Prelude.{ℕ, String, Bool, Option, List, map, ◌==◌, if◌then◌else◌, str_eq, first}

pub record Accounts : Type 0 where
  pub users : List User
  pub mfas : List UserMfa

pub record Policy : Type 0 where
  pub lockout_threshold : ℕ
  pub lockout_minutes : ℕ
  pub mfa_enabled : Bool
  pub mfa_required : Bool
  pub mfa_totp_window : ℕ
  pub access_token_expire_minutes : ℕ

pub record Crypto : Type 0 where
  -- the password, then its hash
  pub verify_password : String → String → Bool
  pub hash_password : String → String
  pub hash_lookup : String → String
  pub decrypt : String → Option String
  -- the secret, then the counter
  pub hotp : String → ℕ → String

-- `db.query(User).filter(User.username == name).first()`
unfoldable pub find_user : String → Accounts → Option User
find_user name db = first (λ (u : User). str_eq u.username name) db.users

unfoldable pub put_row : User → User → User
put_row new u = if u.id == new.id then new else u

-- The row of a user with new columns; ids are unique.
unfoldable pub put_user : User → Accounts → Accounts
put_user new db = record db { users = map (put_row new) db.users }

-- `get_mfa`
unfoldable pub get_mfa : User → Accounts → Option UserMfa
get_mfa user db = first (λ (m : UserMfa). m.user_id == user.id) db.mfas

unfoldable pub put_mfa_row : UserMfa → UserMfa → UserMfa
put_mfa_row new m = if m.user_id == new.user_id then new else m

unfoldable pub put_mfa : UserMfa → Accounts → Accounts
put_mfa new db = record db { mfas = map (put_mfa_row new) db.mfas }
