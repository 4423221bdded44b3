-- ===== src/Auth/Calls.antt =====
-- What clients can ask of the sign-in code, in any order: the calls of backend/app/api/routes/auth.py
-- and mfa.py that change a table, each behind the dependency that says whom it acts for.
use aegisiq.Auth.Accounts.{Policy, Crypto, Accounts}
use aegisiq.Auth.Login.{login, mfa_verify, change_password, logout}
use aegisiq.Auth.Mfa.{enroll, confirm, disable}
use aegisiq.Auth.Session.{Request, Access, allowed, denied, get_current_user, get_enrolling_user}
use aegisiq.Auth.Tokens.{Jose}
use aegisiq.Models.User.{User}
use aegisiq.Prelude.{ℕ, String, List, [], ◌∷◌, codes}

-- The calls of the sign-in code, each with what its client sends and what it draws at random.
pub data Call : Type 0 where
  logs_in : (now : ℕ) (username password : String) → Call
  sends_code : (now : ℕ) (token code : String) → Call
  changes_password : (now : ℕ) (r : Request) (current new : String) → Call
  logs_out : (now : ℕ) (r : Request) → Call
  enrolls : (now : ℕ) (r : Request) (envelope : String) → Call
  confirms : (now : ℕ) (r : Request) (codes : List String) (code : String) → Call
  disables : (now : ℕ) (r : Request) (code : String) → Call

-- what a call does for the user whom its request acts for
unfoldable pub as_user : Access → (User → Accounts) → Accounts → Accounts
as_user (allowed user) act db = act user
as_user (denied d) act db = db

module _ (jose : Jose) (policy : Policy) (crypto : Crypto) where
  unfoldable pub call : Call → Accounts → Accounts
  call (logs_in now username password) db = (login jose policy crypto now username password db).1
  call (sends_code now token code) db = (mfa_verify jose policy crypto now token code db).1
  call (changes_password now r current new) db =
      as_user (get_current_user jose now r db)
        (λ user. (change_password crypto now user current new db).1) db
  call (logs_out now r) db = as_user (get_current_user jose now r db) (λ user. logout user db) db
  call (enrolls now r envelope) db =
      as_user (get_enrolling_user jose now r db) (λ user. (enroll envelope user db).1) db
  call (confirms now r codes code) db =
      as_user (get_enrolling_user jose now r db)
        (λ user. (confirm jose policy crypto now codes user code db).1) db
  call (disables now r code) db =
      as_user (get_current_user jose now r db) (λ user. (disable policy crypto now user code db).1)
        db

  unfoldable pub calls : List Call → Accounts → Accounts
  calls [] db = db
  calls (c ∷ cs) db = calls cs (call c db)
