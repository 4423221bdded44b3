-- ===== src/Auth/Tokens.antt =====
-- The tokens of backend/app/auth/security.py. Signing and checking them is `jose`, a parameter:
-- `decode` is given the instant, and answers the claims of a token whose signature, times, issuer
-- and audience it accepts. The random `jti` is left out, since no code reads it.
use aegisiq.Auth.Accounts.{Policy}
use aegisiq.Models.Log.{seconds}
use aegisiq.Models.User.{User, UserRole}
use aegisiq.Prelude.{
  ℕ, ◌+◌, ◌*◌, ◌≤◌, ◌<◌, String, ◌≡◌, Bool, true, false, Option, none, some, ◌==◌, if◌then◌else◌,
}

pub record Claims : Type 0 where
  pub sub : Option String
  pub role : Option UserRole
  pub mfa_pending : Bool
  pub ver : Option ℕ
  pub issued : ℕ
  pub expires : ℕ

pub record Jose : Type 0 where
  pub encode : Claims → String
  pub decode : ℕ → String → Option Claims

-- `int(token_version or 1)`
abbrev pub version : ℕ → ℕ
version v = if v == 0 then 1 else v

unfoldable pub access_claims : Policy → ℕ → User → Claims
access_claims policy now user = record {
  sub = some user.username;
  role = some user.role;
  mfa_pending = false;
  ver = some (version user.token_version);
  issued = now;
  expires = now + seconds (policy.access_token_expire_minutes * 60);
}

unfoldable pub challenge_claims : ℕ → User → Claims
challenge_claims now user = record {
  sub = some user.username;
  role = none;
  mfa_pending = true;
  ver = none;
  issued = now;
  expires = now + seconds 300;
}

-- `create_access_token` for a user
unfoldable pub create_access_token : Jose → Policy → ℕ → User → String
unfolding access_claims
create_access_token jose policy now user = jose.encode (access_claims policy now user)

-- `create_mfa_challenge_token`
unfoldable pub create_mfa_challenge_token : Jose → ℕ → User → String
unfolding challenge_claims
create_mfa_challenge_token jose now user = jose.encode (challenge_claims now user)

-- What `jose` documents: a token that it has signed decodes to its claims from its `nbf`, the
-- instant of issue here, until it expires.
abbrev pub RoundTrips : Jose → Claims → Type 0
RoundTrips jose claims =
    (now : ℕ)
    → claims.issued ≤ now
    → now < claims.expires
    → jose.decode now (jose.encode claims) ≡ some claims
