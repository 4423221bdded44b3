-- ===== src/Realtime/Stream.antt =====
-- The handshake of backend/app/api/routes/stream.py, and whom it lets in.
use aegisiq.Auth.Accounts.{Accounts, find_user}
use aegisiq.Auth.Lockout.{is_locked}
use aegisiq.Auth.Session.{
  Request, allowed, check_claims, check_user, claimed_version, credential, decoded,
  get_current_user,
}
use aegisiq.Auth.Tokens.{Claims, Jose, version}
use aegisiq.Models.User.{User}
use aegisiq.Prelude.{
  ℕ, String, ◌≡◌, ◌↔◌, inl, inr, false, not, Option, none, some, arith, ◌==◌, if◌then◌else◌, str_eq,
  or_else, Option-cases,
}

-- the checks of `_authenticate` once the user is found
unfoldable pub admit_user : ℕ → Claims → User → Option User
admit_user now claims user =
    if not user.is_active
    then none
    else if not (claimed_version claims.ver == version user.token_version)
    then none
    else if is_locked now user
    then none
    else some user

unfoldable pub admit_claims : ℕ → Accounts → Claims → Option User
unfolding admit_user
admit_claims now db claims = elim claims.sub [
  | none ↦ none
  | some name ↦
      if claims.mfa_pending
      then none
      else elim (find_user name db) [ none ↦ none | some user ↦ admit_user now claims user ]
]

module _ (jose : Jose) (now : ℕ) (db : Accounts) where
  -- `_authenticate`
  unfoldable pub authenticate : Option String → Option User
  unfolding admit_claims
  authenticate none = none
  authenticate (some token) =
      if str_eq token ""
      then none
      else elim (jose.decode now token) [ none ↦ none | some claims ↦ admit_claims now db claims ]

  -- the user of `stream`, from the query and the session cookie
  unfoldable pub stream_user : Option String → Option String → Option User
  unfolding authenticate
  stream_user query cookie = authenticate (or_else query cookie)

  admit_user_iff :
      (claims : Claims) (u user : User)
      → (admit_user now claims u ≡ some user) ↔ (check_user now claims u ≡ allowed user)
  unfolding admit_user check_user
  admit_user_iff claims u user = ground arith

  admit_claims_iff :
      (claims : Claims) (user : User)
      → (admit_claims now db claims ≡ some user) ↔ (check_claims now db claims ≡ allowed user)
  unfolding admit_claims check_claims
  admit_claims_iff claims user = elim (Option-cases claims.sub) [
    | inl no_sub ↦ ground (arith, no_sub)
    | inr (name, sub) ↦ elim (Option-cases (find_user name db)) [
      | inl unknown ↦ ground (arith, sub, unknown)
      | inr (u, found) ↦ ground (arith, sub, found, admit_user_iff claims u user)
    ]
  ]

  -- The socket lets a token in exactly as the REST routes do: for a token that is not empty, the
  -- handshake acts for a user if and only if a request with that bearer token does.
  pub stream_user_iff :
      (token : String) (cookie : Option String) (r : Request) (user : User)
      → r.bearer ≡ some token
      → str_eq token "" ≡ false
      → (stream_user (some token) cookie ≡ some user)
        ↔ (get_current_user jose now r db ≡ allowed user)
  unfolding stream_user get_current_user credential decoded
  stream_user_iff token cookie r user bearer full = elim (Option-cases (jose.decode now token)) [
    | inl bad ↦ ground (arith, bearer, full, bad)
    | inr (claims, d) ↦ ground (arith, bearer, full, d, admit_claims_iff claims user)
  ]
