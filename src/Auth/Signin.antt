-- ===== src/Auth/Signin.antt =====
-- Who gets a session from the login of backend/app/api/routes/auth.py, and that the session works.
use aegisiq.Auth.Access.{Presents-credential}
use aegisiq.Auth.Accounts.{Policy, Crypto, Accounts, find_user, put_user}
use aegisiq.Auth.Lockout.{is_locked, after_success}
use aegisiq.Auth.Login.{session, login, login_user, password_passed, signed_in_row}
use aegisiq.Auth.Mfa.{login_requires_second_factor}
use aegisiq.Auth.Rows.{find_user-put_user}
use aegisiq.Auth.Session.{
  Request, allowed, unauthorized, get_current_user, decoded, check_claims, check_user,
}
use aegisiq.Auth.Tokens.{Jose, RoundTrips, access_claims, create_access_token}
use aegisiq.Models.Log.{seconds}
use aegisiq.Models.User.{User}
use aegisiq.Prelude.{
  ℕ, ◌+◌, ◌*◌, ◌≤◌, ◌<◌, String, ◌≡◌, ap, ◌∙◌, ◌↔◌, inl, inr, true, false, some, arith, str_eq,
  str_eq_iff, Option-cases, is_some, first_sound,
}

module _ (jose : Jose) (policy : Policy) (crypto : Crypto) (now : ℕ) (username password : String)
    (db : Accounts) where
  -- What a login must be to end in a session.
  pub record SignsIn (token : String) : Type 0 where
    pub user : User
    pub found : find_user username db ≡ some user
    pub unlocked : is_locked now user ≡ false
    pub active : user.is_active ≡ true
    pub right : crypto.verify_password password user.password_hash ≡ true
    pub no_second_factor : login_requires_second_factor policy user db ≡ false
    pub minted : token ≡ create_access_token jose policy now user
    pub row :
        (login jose policy crypto now username password db).1 ≡ put_user (signed_in_row now user) db

  signs_in :
      (token : String)
      → (login jose policy crypto now username password db).0 ≡ session token
      → SignsIn token
  unfolding login login_user password_passed
  signs_in token h = elim (Option-cases (find_user username db)) [
    | inl unknown ↦ absurd (ground (arith, h, unknown))
    | inr (user, found) ↦
        let unlocked : is_locked now user ≡ false = ground (arith, h, found) in
        let active : user.is_active ≡ true = ground (arith, h, found) in
        let right : crypto.verify_password password user.password_hash ≡ true =
          ground (arith, h, found) in
        let one_factor : login_requires_second_factor policy user db ≡ false =
          ground (arith, h, found) in
        record {
          user = user;
          found = found;
          unlocked = unlocked;
          active = active;
          right = right;
          no_second_factor = one_factor;
          minted = ground (arith, h, found);
          row = ground (arith, found, unlocked, active, right, one_factor);
        }
  ]

  signed_in :
      (token : String)
      → SignsIn token
      → (login jose policy crypto now username password db).0 ≡ session token
  unfolding login login_user password_passed
  signed_in token s =
      rw (s.found, login)
        (ground (arith, s.unlocked, s.active, s.right, s.no_second_factor, s.minted))

  -- A login ends in a session exactly when the user exists, is not locked and is active, the
  -- password is right, and no second factor is required; the token is then the user's access token,
  -- and the tables have the user's row with the counter cleared and the login noted.
  pub login_iff :
      (token : String)
      → ((login jose policy crypto now username password db).0 ≡ session token) ↔ SignsIn token
  login_iff token = (signs_in token, signed_in token)

  signed_in_row-keeps :
      (user : User)
      → ((signed_in_row now user).id ≡ user.id)
        × ((signed_in_row now user).username ≡ user.username)
        × ((signed_in_row now user).is_active ≡ user.is_active)
        × ((signed_in_row now user).token_version ≡ user.token_version)
  unfolding signed_in_row after_success
  signed_in_row-keeps user = ground arith

  signed_in_row-unlocked :
      (later : ℕ) (user : User) → is_locked later (signed_in_row now user) ≡ false
  unfolding signed_in_row after_success is_locked is_some
  signed_in_row-unlocked later user = ground arith

  owner : (user : User) → find_user username db ≡ some user → str_eq user.username username ≡ true
  unfolding find_user
  owner user found = first_sound (λ (u : User). str_eq u.username username) db.users user found

  -- The token that a login returns works: until it expires, a request that carries it as its bearer
  -- is let in as the user who logged in, if the token decodes to the claims that it was signed for.
  pub login-get_current_user :
      (user : User) (token : String) (later : ℕ) (r : Request)
      → find_user username db ≡ some user
      → RoundTrips jose (access_claims policy now user)
      → (login jose policy crypto now username password db).0 ≡ session token
      → now ≤ later
      → later < now + seconds (policy.access_token_expire_minutes * 60)
      → r.bearer ≡ some token
      → get_current_user jose later r (login jose policy crypto now username password db).1
        ≡ allowed (signed_in_row now user)
  unfolding get_current_user decoded check_claims check_user create_access_token access_claims
  login-get_current_user user token later r known trips in_session since until bearer =
      let s = signs_in token in_session in
      let same : s.user ≡ user = ground (arith, s.found, known) in
      let new = signed_in_row now user in
      let (id, name, active, ver) = signed_in_row-keeps user in
      let same_name : user.username ≡ username =
        (str_eq_iff user.username username).0 (owner user known) in
      let known' = ap (λ n. find_user n db) same_name ∙ known in
      let found = find_user-put_user user.username db user new known' id name in
      let minted : token ≡ jose.encode (access_claims policy now user) =
        ground (arith, s.minted, same) in
      let decodes : jose.decode later token ≡ some (access_claims policy now user) =
        rw minted (trips later since until) in
      let is_active : user.is_active ≡ true = ground (arith, s.active, same) in
      rw (Presents-credential r token unauthorized (inl bearer), decodes, decoded, s.row, same)
        (rw found (ground (arith, active, is_active, ver, signed_in_row-unlocked later user)))
