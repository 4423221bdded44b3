-- ===== src/Auth/SecondFactor.antt =====
-- Who gets a session from the second step of backend/app/api/routes/auth.py.
use aegisiq.Auth.Accounts.{Policy, Crypto, Accounts, find_user, get_mfa}
use aegisiq.Auth.Login.{session, mfa_verify, verify_claims, verify_user}
use aegisiq.Auth.Mfa.{is_totp, plain_secret, backup_hash, is_enforced, verify_code, verify_row}
use aegisiq.Auth.Tokens.{Claims, Jose, create_access_token}
use aegisiq.Models.User.{User, UserMfa}
use aegisiq.Prelude.{
  ℕ, String, ◌≡◌, ◌↔◌, ◌⊎◌, inl, inr, true, some, arith, str_eq, Option-cases, any,
}

module _ (jose : Jose) (policy : Policy) (crypto : Crypto) (now : ℕ) (challenge code : String)
    (db : Accounts) where
  -- What a second step must be to end in a session.
  pub record Verifies (session_token : String) : Type 0 where
    pub claims : Claims
    pub name : String
    pub user : User
    pub enrolment : UserMfa
    pub decodes : jose.decode now challenge ≡ some claims
    pub subject : claims.sub ≡ some name
    pub pending : claims.mfa_pending ≡ true
    pub found : find_user name db ≡ some user
    pub enrolled : get_mfa user db ≡ some enrolment
    pub enforced : is_enforced enrolment ≡ true
    pub right :
        (is_totp policy crypto now code (plain_secret crypto enrolment) ≡ true)
        ⊎ (any (str_eq (backup_hash crypto code)) enrolment.backup_hashes ≡ true)
    pub minted : session_token ≡ create_access_token jose policy now user

  verifies :
      (token : String)
      → (mfa_verify jose policy crypto now challenge code db).0 ≡ session token
      → Verifies token
  unfolding mfa_verify verify_claims verify_user verify_code verify_row
  verifies token h = elim (Option-cases (jose.decode now challenge)) [
    | inl bad ↦ absurd (ground (arith, h, bad))
    | inr (claims, d) ↦ elim (Option-cases claims.sub) [
      | inl no_sub ↦ absurd (ground (arith, h, d, no_sub))
      | inr (name, sub) ↦ elim (Option-cases (find_user name db)) [
        | inl unknown ↦ absurd (ground (arith, h, d, sub, unknown))
        | inr (user, found) ↦ elim (Option-cases (get_mfa user db)) [
          | inl absent ↦ absurd (ground (arith, h, d, sub, found, absent))
          | inr (row, enrolled) ↦ record {
            claims = claims;
            name = name;
            user = user;
            enrolment = row;
            decodes = d;
            subject = sub;
            pending = ground (arith, h, d, sub);
            found = found;
            enrolled = enrolled;
            enforced = ground (arith, h, d, sub, found, enrolled);
            right = ground (arith, h, d, sub, found, enrolled);
            minted = ground (arith, h, d, sub, found, enrolled);
          }
        ]
      ]
    ]
  ]

  verified :
      (token : String)
      → Verifies token
      → (mfa_verify jose policy crypto now challenge code db).0 ≡ session token
  unfolding mfa_verify verify_claims verify_user verify_code verify_row
  verified token s =
      ground
        (arith, s.decodes, s.subject, s.pending, s.found, s.enrolled, s.enforced, s.right, s.minted)

  -- The second step ends in a session exactly when the challenge decodes to claims of a pending login
  -- that name a user of the table with an enforced enrolment, and the code is a right TOTP code or one
  -- of the stored backup codes; the session's token is the user's access token.
  pub mfa_verify_iff :
      (token : String)
      → ((mfa_verify jose policy crypto now challenge code db).0 ≡ session token) ↔ Verifies token
  mfa_verify_iff token = (verifies token, verified token)
