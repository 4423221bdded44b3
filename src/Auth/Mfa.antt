-- ===== src/Auth/Mfa.antt =====
-- The second factor: backend/app/security/mfa_service.py and the routes of api/routes/mfa.py that
-- change an enrolment. The secret and the backup codes that enrolment generates are arguments; the
-- audit rows and the cookies are left out.
use aegisiq.Auth.Accounts.{Policy, Crypto, Accounts, get_mfa, put_mfa}
use aegisiq.Auth.Tokens.{Jose, create_access_token}
use aegisiq.Auth.Totp.{totp_verify}
use aegisiq.Models.User.{User, UserMfa, MfaStatus}
use aegisiq.Prelude.{
  ℕ, String, Bool, true, false, not, ◌&&◌, ◌||◌, Option, none, some, List, [], ◌∷◌, map,
  if◌then◌else◌, str_eq, truthy, codes, lower, without, strip, any,
}

abbrev pub is_active_status : MfaStatus → Bool
is_active_status MfaStatus.active = true
is_active_status _ = false

abbrev pub is_disabled_status : MfaStatus → Bool
is_disabled_status MfaStatus.disabled = true
is_disabled_status _ = false

-- `row.status == MfaStatus.ACTIVE and row.secret_enc`
unfoldable pub is_enforced : UserMfa → Bool
is_enforced row = is_active_status row.status && truthy row.secret

-- `is_active`
unfoldable pub is_active : User → Accounts → Bool
unfolding is_enforced
is_active user db = elim (get_mfa user db) [ none ↦ false | some row ↦ is_enforced row ]

unfoldable pub login_requires_second_factor : Policy → User → Accounts → Bool
login_requires_second_factor policy user db =
    if not policy.mfa_enabled
    then false
    else if is_active user db
    then true
    else policy.mfa_required

-- `list.remove`: the first occurrence
unfoldable pub remove_first : String → List String → List String
remove_first x [] = []
remove_first x (y ∷ ys) = let rest = remove_first x ys in if str_eq x y then ys else y ∷ rest

pub data Method : Type 0 where
  totp backup no_match : Method

abbrev pub plain_secret : Crypto → UserMfa → Option String
plain_secret crypto row = elim row.secret [ none ↦ none | some envelope ↦ crypto.decrypt envelope ]

-- `secret and totp.verify(secret, code, …)`
unfoldable pub is_totp : Policy → Crypto → ℕ → String → Option String → Bool
is_totp policy crypto now code none = false
is_totp policy crypto now code (some secret) =
    not (str_eq secret "") && totp_verify crypto.hotp secret code policy.mfa_totp_window now

-- the digest of a submitted backup code: `code.strip().lower().replace(" ", "")`, hashed
unfoldable pub backup_hash : Crypto → String → String
backup_hash crypto code = crypto.hash_lookup (without 32 (lower (strip code)))

-- `verify_code` for a row that is enforced
unfoldable pub verify_row : Policy → Crypto → ℕ → String → UserMfa → Method × UserMfa
unfolding is_totp backup_hash
verify_row policy crypto now code row =
    if is_totp policy crypto now code (plain_secret crypto row)
    then (totp, record row { last_used_at = some now })
    else if any (str_eq (backup_hash crypto code)) row.backup_hashes
    then (
      backup,
      record row {
        backup_hashes = remove_first (backup_hash crypto code) row.backup_hashes;
        last_used_at = some now;
      },
    )
    else (no_match, row)

-- `verify_code`
unfoldable pub verify_code : Policy → Crypto → ℕ → User → String → Accounts → Method × Accounts
unfolding verify_row
verify_code policy crypto now user code db = elim (get_mfa user db) [
  | none ↦ (no_match, db)
  | some row ↦ if not (is_enforced row) then (no_match, db) else (
    (verify_row policy crypto now code row).0,
    put_mfa (verify_row policy crypto now code row).1 db,
  )
]

-- 200, with the token of a session or without one, 400 and 409
pub data Reply : Type 0 where
  done bad_request conflict : Reply
  signed_in : String → Reply

unfoldable pub pending_row : String → UserMfa → UserMfa
pending_row envelope row = record row {
  status = MfaStatus.pending;
  secret = some envelope;
  backup_hashes = [];
}

abbrev pub blank_row : User → UserMfa
blank_row user = record {
  user_id = user.id;
  status = MfaStatus.disabled;
  secret = none;
  backup_hashes = [];
  last_used_at = none;
}

-- `enroll`, with the envelope of the fresh secret
unfoldable pub enroll : String → User → Accounts → Reply × Accounts
unfolding pending_row
enroll envelope user db = elim (get_mfa user db) [
  | none ↦ (done, record db { mfas = pending_row envelope (blank_row user) ∷ db.mfas })
  | some row ↦
      if is_active_status row.status
      then (conflict, db)
      else (done, put_mfa (pending_row envelope row) db)
]

unfoldable pub confirmed_row : Crypto → List String → UserMfa → UserMfa
confirmed_row crypto codes row = record row {
  status = MfaStatus.active;
  backup_hashes = map (λ c. crypto.hash_lookup (without 45 c)) codes;
}

-- `confirm`, with the backup codes that were generated
unfoldable pub confirm :
    Jose → Policy → Crypto → ℕ → List String → User → String → Accounts → Reply × Accounts
unfolding is_totp confirmed_row
confirm jose policy crypto now codes user code db = elim (get_mfa user db) [
  | none ↦ (bad_request, db)
  | some row ↦
      if is_disabled_status row.status || not (truthy row.secret)
      then (bad_request, db)
      else if not (is_totp policy crypto now code (plain_secret crypto row))
      then (bad_request, db)
      else (
        signed_in (create_access_token jose policy now user),
        put_mfa (confirmed_row crypto codes row) db,
      )
]

abbrev pub is_no_match : Method → Bool
is_no_match no_match = true
is_no_match _ = false

unfoldable pub disabled_row : UserMfa → UserMfa
disabled_row row = record row { status = MfaStatus.disabled; secret = none; backup_hashes = [] }

-- `disable`: the row that `verify_code` may have changed is reset
unfoldable pub disable : Policy → Crypto → ℕ → User → String → Accounts → Reply × Accounts
unfolding disabled_row
disable policy crypto now user code db = elim (get_mfa user db) [
  | none ↦ (bad_request, db)
  | some row ↦
      if not (is_active_status row.status)
      then (bad_request, db)
      else if is_no_match (verify_code policy crypto now user code db).0
      then (bad_request, db)
      else (
        done,
        put_mfa (disabled_row (verify_row policy crypto now code row).1)
            (verify_code policy crypto now user code db).1,
      )
]
