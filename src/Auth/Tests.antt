-- ===== src/Auth/Tests.antt =====
-- Runs of the sign-in code on one account.
use aegisiq.Auth.Access.{Authenticates, get_current_user_iff}
use aegisiq.Auth.Accounts.{Policy, Crypto, Accounts, find_user}
use aegisiq.Auth.Backup.{uses, remaining, uses-le}
use aegisiq.Auth.Calls.{logs_in, calls}
use aegisiq.Auth.Guessing.{IsGuess, comparisons, comparisons-bound}
use aegisiq.Auth.Lockout.{is_locked}
use aegisiq.Auth.Login.{mfa_verify, session, login, signed_in_row, logout}
use aegisiq.Auth.Mfa.{login_requires_second_factor}
use aegisiq.Auth.Revocation.{IsFixed, IsUnique, revoked_forever}
use aegisiq.Auth.Session.{Request, allowed, get_current_user, credential}
use aegisiq.Auth.Signin.{SignsIn, login_iff, login-get_current_user}
use aegisiq.Auth.SecondFactor.{Verifies, mfa_verify_iff}
use aegisiq.Auth.Tokens.{challenge_claims, Jose, RoundTrips, access_claims, create_access_token}
use aegisiq.Auth.Totp.{IsCodeOf, totp_verify, totp_verify_iff}
use aegisiq.Models.User.{User, UserRole, UserMfa, MfaStatus}
use aegisiq.Prelude.{
  ℕ, ◌≤◌, String, ◌≡◌, refl, ◌≢◌, ◌↔◌, inl, true, false, none, some, List, [], ◌∷◌, arith,
  if◌then◌else◌, str_eq, before, after, first, All,
}

abbrev policy : Policy
policy = record {
  lockout_threshold = 2;
  lockout_minutes = 15;
  mfa_enabled = false;
  mfa_required = false;
  mfa_totp_window = 1;
  access_token_expire_minutes = 60;
}

abbrev crypto : Crypto
crypto = record {
  verify_password = λ password hash. str_eq password hash;
  hash_password = λ password. password;
  hash_lookup = λ s. s;
  decrypt = λ s. some s;
  hotp = λ secret step. "000000";
}

abbrev ada : User
ada = record {
  id = 1;
  username = "ada";
  password_hash = "secret";
  role = UserRole.administrator;
  last_login = none;
  is_active = true;
  failed_login_count = 0;
  locked_until = none;
  token_version = 1;
  password_changed_at = none;
}

abbrev enrolment : UserMfa
enrolment = record {
  user_id = 1;
  status = MfaStatus.active;
  secret = some "JBSWY3DP";
  backup_hashes = "abcdefgh" ∷ [];
  last_used_at = none;
}

abbrev accounts : Accounts
accounts = record { users = ada ∷ []; mfas = enrolment ∷ [] }

-- one token, for the claims of a login at 5
abbrev jose : Jose
jose = record {
  encode = λ claims. "token";
  decode = λ now token. if str_eq token "token" then some (access_claims policy 5 ada) else none;
}

abbrev request : Request
request = record {
  method = "GET";
  authorization = some "Bearer token";
  bearer = some "token";
  session_cookie = none;
  csrf_cookie = none;
  csrf_header = none;
}

totp_verify_iff_example :
    (totp_verify (λ secret step. "000000") "JBSWY3DP" "000000" 1 60_000_000 ≡ true)
    ↔ IsCodeOf (λ secret step. "000000") "JBSWY3DP" "000000" 1 60_000_000
unfolding str_eq
totp_verify_iff_example =
    totp_verify_iff (λ secret step. "000000") "JBSWY3DP" "000000" 1 60_000_000 (omega arith) refl

get_current_user_iff_example :
    (get_current_user jose 6 request accounts ≡ allowed ada)
    ↔ Authenticates jose 6 request accounts ada
get_current_user_iff_example = get_current_user_iff jose 6 accounts request ada

ada_is_found : find_user "ada" accounts ≡ some ada
unfolding find_user first str_eq
ada_is_found = refl

abbrev guesses : List (ℕ × String)
guesses = (10, "a") ∷ (20, "b") ∷ (30, "c") ∷ []

guesses_are_wrong : All (IsGuess jose policy crypto "ada" 0 "secret") guesses
unfolding str_eq
guesses_are_wrong = (
  (omega arith, omega arith, refl),
  ((omega arith, omega arith, refl), ((omega arith, omega arith, refl), tt)),
)

comparisons-bound_example : comparisons jose policy crypto "ada" guesses accounts ≤ 2
comparisons-bound_example =
    comparisons-bound jose policy crypto "ada" 0 guesses accounts ada (omega arith) ada_is_found
      guesses_are_wrong

uses-le_example :
    uses policy crypto ada "abcdefgh" ((10, "ABCD EFGH") ∷ (20, "abcdefgh") ∷ []) accounts
    ≤ remaining "abcdefgh" ada accounts
uses-le_example =
    uses-le policy crypto ada "abcdefgh" ((10, "ABCD EFGH") ∷ (20, "abcdefgh") ∷ []) accounts

login_iff_example :
    ((login jose policy crypto 5 "ada" "secret" accounts).0 ≡ session "token")
    ↔ SignsIn jose policy crypto 5 "ada" "secret" accounts "token"
login_iff_example = login_iff jose policy crypto 5 "ada" "secret" accounts "token"

token-RoundTrips : RoundTrips jose (access_claims policy 5 ada)
unfolding str_eq
token-RoundTrips now after before = refl

ada_logs_in : (login jose policy crypto 5 "ada" "secret" accounts).0 ≡ session "token"
unfolding login find_user first str_eq is_locked login_requires_second_factor create_access_token
ada_logs_in = refl

login-get_current_user_example :
    get_current_user jose 6 request (login jose policy crypto 5 "ada" "secret" accounts).1
    ≡ allowed (signed_in_row 5 ada)
login-get_current_user_example =
    login-get_current_user jose policy crypto 5 "ada" "secret" accounts ada "token" 6 request
      ada_is_found token-RoundTrips ada_logs_in (omega arith) (omega arith) refl

one_token_is_fixed : IsFixed jose policy crypto
one_token_is_fixed token now later c d e f = ground (arith, e, f)

ada-IsUnique : IsUnique jose policy crypto ada accounts
ada-IsUnique = ((λ e. refl), tt)

ada_is_let_in : get_current_user jose 6 request accounts ≡ allowed ada
unfolding get_current_user find_user access_claims credential str_eq first is_locked
ada_is_let_in = refl

revoked_forever_example :
    get_current_user jose 9 request
      (calls jose policy crypto (logs_in 7 "ada" "secret" ∷ []) (logout ada accounts))
    ≢ allowed (signed_in_row 7 ada)
revoked_forever_example =
    revoked_forever jose policy crypto 6 9 request request ada (signed_in_row 7 ada) "token"
      (logs_in 7 "ada" "secret" ∷ []) accounts one_token_is_fixed ada-IsUnique ada_is_let_in
      (inl refl) (inl refl)

-- one token, for the claims of a challenge at 5
abbrev challenger : Jose
challenger = record {
  encode = λ claims. "challenge";
  decode = λ now token. if str_eq token "challenge" then some (challenge_claims 5 ada) else none;
}

mfa_verify_iff_example :
    ((mfa_verify challenger policy crypto 6 "challenge" "abcdefgh" accounts).0
      ≡ session "challenge")
    ↔ Verifies challenger policy crypto 6 "challenge" "abcdefgh" accounts "challenge"
mfa_verify_iff_example =
    mfa_verify_iff challenger policy crypto 6 "challenge" "abcdefgh" accounts "challenge"
