-- ===== src/Auth/Session.antt =====
-- Who a request acts for: backend/app/auth/dependencies.py, with the cookie and the anti-forgery
-- check of backend/app/security/session_cookie.py. FastAPI reads the request: the bearer token is
-- what its `OAuth2PasswordBearer` found.
use aegisiq.Auth.Accounts.{Accounts, find_user}
use aegisiq.Auth.Lockout.{is_locked}
use aegisiq.Auth.Tokens.{Claims, Jose, version}
use aegisiq.Models.User.{User, UserRole}
use aegisiq.Prelude.{
  ℕ, String, Bool, true, false, not, ◌&&◌, ◌||◌, Option, none, some, List, [], ◌∷◌, ◌==◌,
  if◌then◌else◌, str_eq, opt_eq, truthy, upper, any,
}

pub record Request : Type 0 where
  pub method : String
  pub authorization : Option String
  pub bearer : Option String
  pub session_cookie : Option String
  pub csrf_cookie : Option String
  pub csrf_header : Option String

abbrev pub safe_methods : List String
safe_methods = "GET" ∷ "HEAD" ∷ "OPTIONS" ∷ "TRACE" ∷ []

-- `enforce_csrf`: whether it lets the request pass
unfoldable pub enforce_csrf : Request → Bool
enforce_csrf r =
    if any (str_eq (upper r.method)) safe_methods
    then true
    else if truthy r.authorization
    then true
    else if not (truthy r.session_cookie)
    then true
    else not (
        not (truthy r.csrf_cookie)
        || (not (truthy r.csrf_header) || not (opt_eq r.csrf_cookie r.csrf_header)))

-- 401, 403 for a disabled account or a role, 403 for a forged request
pub data Denial : Type 0 where
  unauthorized disabled forged forbidden : Denial

pub data Access : Type 0 where
  allowed : User → Access
  denied : Denial → Access

-- the token of the request: the bearer's, else the cookie's, which the anti-forgery check guards
unfoldable pub credential : Request → Denial → Option String × Denial
credential r otherwise = elim r.bearer [
  | some token ↦ (some token, otherwise)
  | none ↦ elim r.session_cookie [
    | none ↦ (none, otherwise)
    | some token ↦ if enforce_csrf r then (some token, otherwise) else (none, forged)
  ]
]

abbrev pub claimed_version : Option ℕ → ℕ
claimed_version none = 1
claimed_version (some v) = v

unfoldable pub check_user : ℕ → Claims → User → Access
check_user now claims user =
    if not user.is_active
    then denied disabled
    else if not (claimed_version claims.ver == version user.token_version)
    then denied unauthorized
    else if is_locked now user
    then denied unauthorized
    else allowed user

-- the checks of the claims of a token
unfoldable pub check_claims : ℕ → Accounts → Claims → Access
unfolding check_user
check_claims now db claims = elim claims.sub [
  | none ↦ denied unauthorized
  | some name ↦ if claims.mfa_pending then denied unauthorized else elim (find_user name db) [
    | none ↦ denied unauthorized
    | some user ↦ check_user now claims user
  ]
]

unfoldable pub check_enrolling_user : ℕ → Claims → User → Access
check_enrolling_user now claims user =
    if not user.is_active
    then denied disabled
    else if is_locked now user
    then denied unauthorized
    else if not claims.mfa_pending && not (claimed_version claims.ver == version user.token_version)
    then denied unauthorized
    else allowed user

unfoldable pub check_enrolling : ℕ → Accounts → Claims → Access
unfolding check_enrolling_user
check_enrolling now db claims = elim claims.sub [
  | none ↦ denied unauthorized
  | some name ↦ elim (find_user name db) [
    | none ↦ denied unauthorized
    | some user ↦ check_enrolling_user now claims user
  ]
]

module _ (jose : Jose) where
  unfoldable pub decoded : (Claims → Access) → ℕ → Option String × Denial → Access
  decoded check now (none, denial) = denied denial
  decoded check now (some token, denial) = elim (jose.decode now token) [
    | none ↦ denied unauthorized
    | some claims ↦ check claims
  ]

  -- `get_current_user`
  unfoldable pub get_current_user : ℕ → Request → Accounts → Access
  unfolding check_claims decoded
  get_current_user now r db = decoded (check_claims now db) now (credential r unauthorized)

  -- `get_enrolling_user`
  unfoldable pub get_enrolling_user : ℕ → Request → Accounts → Access
  unfolding check_enrolling decoded
  get_enrolling_user now r db = decoded (check_enrolling now db) now (credential r unauthorized)

abbrev pub role_eq : UserRole → UserRole → Bool
role_eq UserRole.administrator UserRole.administrator = true
role_eq UserRole.security_analyst UserRole.security_analyst = true
role_eq _ _ = false

-- `require_role`, once the user is known
unfoldable pub require_role : List UserRole → Access → Access
require_role roles (denied d) = denied d
require_role roles (allowed user) =
    if any (role_eq user.role) roles then allowed user else denied forbidden
