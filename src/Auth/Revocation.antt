-- ===== src/Auth/Revocation.antt =====
-- Signing out ends every session for good: after `logout` of backend/app/api/routes/auth.py no
-- later call of the sign-in code makes an old token valid again.
use aegisiq.Auth.Access.{get_current_user_iff, Presents, Presents-credential}
use aegisiq.Auth.Accounts.{Policy, Crypto, Accounts, find_user, put_user, put_row}
use aegisiq.Auth.Login.{logout, revoked_row}
use aegisiq.Auth.Session.{unauthorized, Request, allowed, get_current_user}
use aegisiq.Auth.Tokens.{Claims, Jose, version}
use aegisiq.Models.User.{User}
use aegisiq.Auth.Calls.{Call, calls}
use aegisiq.Auth.Kept.{calls-AtLeast}
use aegisiq.Prelude.{
  ℕ, ◌+◌, ◌≤◌, String, ◌≡◌, ◌≢◌, inl, inr, true, some, List, [], ◌∷◌, map, arith, ◌==◌,
  if◌then◌else◌, str_eq, str_eq_iff, Bool-cases, All, first_sound, first-All,
}

module _ (jose : Jose) (policy : Policy) (crypto : Crypto) where
  -- A token always decodes to the same claims.
  abbrev pub IsFixed : Type 0
  IsFixed =
      (token : String) (now later : ℕ) (c d : Claims)
      → jose.decode now token ≡ some c
      → jose.decode later token ≡ some d
      → c ≡ d

  -- The name stands in one row of the table only.
  abbrev pub IsUnique : User → Accounts → Type 0
  IsUnique user db =
      All (λ (u : User). str_eq u.username user.username ≡ true → u.id ≡ user.id) db.users

  same_token : (r : Request) (s t : String) → Presents r s → Presents r t → s ≡ t
  same_token r s t p q =
      ground (arith, Presents-credential r s unauthorized p, Presents-credential r t unauthorized q)

  revoked_rows :
      (user : User) (rows : List User)
      → All (λ (u : User). str_eq u.username user.username ≡ true → u.id ≡ user.id) rows
      → All
          (λ (u : User).
            str_eq u.username user.username ≡ true
            → version user.token_version + 1 ≤ version u.token_version)
          (map (put_row (revoked_row user)) rows)
  unfolding put_row revoked_row
  revoked_rows user [] h = tt
  revoked_rows user (u ∷ rows) h = elim (Bool-cases (u.id == user.id)) [
    | inl its ↦ rw (its, if◌then◌else◌) ((λ _. ground arith), revoked_rows user rows h.1)
    | inr other ↦
        rw (other, if◌then◌else◌)
          ((λ e. absurd (ground (arith, other, h.0 e))), revoked_rows user rows h.1)
  ]

  -- The token that a request was let in with is refused for ever after the account signs out: when
  -- the name stands in one row and a token always decodes to the same claims, then whatever calls of
  -- the sign-in code follow the logout, no request that carries the token is let in, as anyone.
  pub revoked_forever :
      (now later : ℕ) (r r' : Request) (user w : User) (token : String) (cs : List Call)
      (db : Accounts)
      → IsFixed
      → IsUnique user db
      → get_current_user jose now r db ≡ allowed user
      → Presents r token
      → Presents r' token
      → get_current_user jose later r' (calls jose policy crypto cs (logout user db)) ≢ allowed w
  unfolding find_user logout put_user
  revoked_forever now later r r' user w token cs db fixed single let_in p p' again =
      let db' = calls jose policy crypto cs (logout user db) in
      let a = (get_current_user_iff jose now db r user).0 let_in in
      let b = (get_current_user_iff jose later db' r' w).0 again in
      let same_a = same_token r a.token token a.presented p in
      let same_b = same_token r' b.token token b.presented p' in
      let same_claims =
        fixed token now later a.claims b.claims (rw (← same_a) a.decodes)
          (rw (← same_b) b.decodes) in
      let same_name : a.name ≡ b.name = ground (arith, a.subject, b.subject, same_claims) in
      let owner : user.username ≡ a.name =
        (str_eq_iff user.username a.name).0
          (first_sound (λ (u : User). str_eq u.username a.name) db.users user a.found) in
      let kept =
        calls-AtLeast jose policy crypto user.username (version user.token_version + 1) cs
          (logout user db) (revoked_rows user db.users single) in
      let newer =
        first-All
          (λ (u : User).
            str_eq u.username user.username ≡ true
            → version user.token_version + 1 ≤ version u.token_version)
          (λ (u : User). str_eq u.username b.name) db'.users w kept b.found in
      let w_owner = first_sound (λ (u : User). str_eq u.username b.name) db'.users w b.found in
      let higher = newer (rw (owner, same_name) w_owner) in
      let claimed : version user.token_version ≡ version w.token_version =
        ground (arith, a.current, b.current, same_claims) in
      omega (arith, higher, claimed)
