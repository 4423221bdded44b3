-- ===== src/Models/User.antt =====
-- backend/app/models/user.py and mfa.py. Instants are microseconds since the epoch. The encrypted
-- columns are kept as what `EncryptedString` yields when they are read.
use aegisiq.Prelude.{ℕ, String, Bool, Option, List}

pub data UserRole : Type 0 where
  administrator security_analyst : UserRole

pub record User : Type 0 where
  pub id : ℕ
  pub username : String
  pub password_hash : String
  pub role : UserRole
  pub last_login : Option ℕ
  pub is_active : Bool
  pub failed_login_count : ℕ
  pub locked_until : Option ℕ
  pub token_version : ℕ
  pub password_changed_at : Option ℕ

pub data MfaStatus : Type 0 where
  disabled pending active : MfaStatus

pub record UserMfa : Type 0 where
  pub user_id : ℕ
  pub status : MfaStatus
  pub secret : Option String
  pub backup_hashes : List String
  pub last_used_at : Option ℕ
