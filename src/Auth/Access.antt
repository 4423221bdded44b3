-- ===== src/Auth/Access.antt =====
-- Whom `get_current_user` of backend/app/auth/dependencies.py lets in.
use aegisiq.Auth.Accounts.{Accounts, find_user}
use aegisiq.Auth.Lockout.{is_locked}
use aegisiq.Auth.Session.{
  Request, allowed, Denial, unauthorized, enforce_csrf, credential, claimed_version, check_user,
  check_claims, decoded, get_current_user, safe_methods,
}
use aegisiq.Auth.Tokens.{Claims, Jose, version}
use aegisiq.Models.User.{User}
use aegisiq.Prelude.{
  ℕ, String, ◌≡◌, refl, ap, ◌∙◌, ◌↔◌, ◌⊎◌, inl, inr, true, false, none, some, arith, str_eq,
  opt_eq_iff, truthy, Option-cases, upper, any,
}

-- The request carries the token: as its bearer, or in the cookie with the anti-forgery check passed.
abbrev pub Presents : Request → String → Type 0
Presents r token =
    (r.bearer ≡ some token)
    ⊎ ((r.bearer ≡ none) × (r.session_cookie ≡ some token) × (enforce_csrf r ≡ true))

-- What makes a request act for a user.
pub record Authenticates (jose : Jose) (now : ℕ) (r : Request) (db : Accounts) (user : User)
    : Type 0 where
  pub token : String
  pub claims : Claims
  pub name : String
  pub presented : Presents r token
  pub decodes : jose.decode now token ≡ some claims
  pub subject : claims.sub ≡ some name
  pub complete : claims.mfa_pending ≡ false
  pub found : find_user name db ≡ some user
  pub active : user.is_active ≡ true
  pub current : claimed_version claims.ver ≡ version user.token_version
  pub unlocked : is_locked now user ≡ false

pub Presents-credential :
    (r : Request) (token : String) (d : Denial)
    → Presents r token
    → credential r d ≡ (some token, d)
unfolding credential
Presents-credential r token d (inl bearer) = rw (bearer, credential) refl
Presents-credential r token d (inr (no_bearer, cookie, pass)) =
    rw (no_bearer, credential) (rw (cookie, credential, pass) refl)

credential-Presents :
    (r : Request) (token : String) (d : Denial) → (credential r d).0 ≡ some token → Presents r token
unfolding credential
credential-Presents r token d h = ground (arith, h)

module _ (jose : Jose) (now : ℕ) (db : Accounts) where
  check_user_allows :
      (claims : Claims) (u user : User)
      → check_user now claims u ≡ allowed user
      → (u ≡ user)
        × (u.is_active ≡ true)
        × (claimed_version claims.ver ≡ version u.token_version)
        × (is_locked now u ≡ false)
  unfolding check_user
  check_user_allows claims u user h = ground (arith, h)

  check_claims_allows :
      (r : Request) (token : String) (claims : Claims) (user : User)
      → Presents r token
      → jose.decode now token ≡ some claims
      → check_claims now db claims ≡ allowed user
      → Authenticates jose now r db user
  unfolding check_claims
  check_claims_allows r token claims user p d h = elim (Option-cases claims.sub) [
    | inl no_sub ↦ absurd (ground (arith, h, no_sub))
    | inr (name, sub) ↦ elim (Option-cases (find_user name db)) [
      | inl unknown ↦ absurd (ground (arith, h, sub, unknown))
      | inr (u, found) ↦
          let checked : check_user now claims u ≡ allowed user = ground (arith, h, sub, found) in
          let (same, active, current, unlocked) = check_user_allows claims u user checked in
          record {
            token = token;
            claims = claims;
            name = name;
            presented = p;
            decodes = d;
            subject = sub;
            complete = ground (arith, h, sub);
            found = found ∙ ap some same;
            active = rw (← same) active;
            current = rw (← same) current;
            unlocked = rw (← same) unlocked;
          }
    ]
  ]

  lets_in :
      (r : Request) (user : User)
      → get_current_user jose now r db ≡ allowed user
      → Authenticates jose now r db user
  unfolding get_current_user decoded
  lets_in r user h = elim (Option-cases (credential r unauthorized).0) [
    | inl nothing ↦ absurd (ground (arith, h, nothing))
    | inr (token, has) ↦ elim (Option-cases (jose.decode now token)) [
      | inl bad ↦ absurd (ground (arith, h, has, bad))
      | inr (claims, d) ↦
          check_claims_allows r token claims user (credential-Presents r token unauthorized has) d
            (ground (arith, h, has, d))
    ]
  ]

  admits :
      (r : Request) (user : User)
      → Authenticates jose now r db user
      → get_current_user jose now r db ≡ allowed user
  unfolding get_current_user decoded check_claims check_user
  admits r user a =
      rw
        (
          Presents-credential r a.token unauthorized a.presented,
          a.decodes,
          decoded,
          a.subject,
          check_claims,
        )
        (rw (a.complete, a.found, check_claims) (ground (arith, a.active, a.unlocked, a.current)))

  -- A request acts for a user exactly when it carries a token (as its bearer, or in the cookie with
  -- the anti-forgery check passed) that decodes to claims of a completed login which name the user,
  -- the account is active and not locked, and the version in the claims is the account's current one.
  pub get_current_user_iff :
      (r : Request) (user : User)
      → (get_current_user jose now r db ≡ allowed user) ↔ Authenticates jose now r db user
  get_current_user_iff r user = (lets_in r user, admits r user)

-- A request passes the anti-forgery check exactly when its method cannot change state, or it has
-- an authorization header, or no session cookie, or it echoes the CSRF cookie in the header.
pub enforce_csrf_iff :
    (r : Request)
    → (enforce_csrf r ≡ true) ↔ (
        (any (str_eq (upper r.method)) safe_methods ≡ true)
        ⊎ (truthy r.authorization ≡ true)
        ⊎ (truthy r.session_cookie ≡ false)
        ⊎ ((truthy r.csrf_cookie ≡ true) × (r.csrf_header ≡ r.csrf_cookie)))
unfolding enforce_csrf
enforce_csrf_iff r = ground (arith, opt_eq_iff r.csrf_cookie r.csrf_header)
