-- ===== src/Auth/Kept.antt =====
-- No call of the sign-in code takes the token version of an account back.
use aegisiq.Auth.Access.{get_current_user_iff}
use aegisiq.Auth.Accounts.{Policy, Crypto, Accounts, find_user, put_user, put_row, put_mfa}
use aegisiq.Auth.Lockout.{register_failure, after_failure, after_success, is_locked}
use aegisiq.Auth.Login.{
  login, login_user, password_passed, signed_in_row, mfa_verify, verify_claims, verify_user,
  change_password, changed_row, logout, revoked_row, is_clean,
}
use aegisiq.Auth.Mfa.{
  enroll, confirm, disable, verify_code, login_requires_second_factor, is_no_match,
}
use aegisiq.Auth.Session.{Request, Access, allowed, denied, get_current_user}
use aegisiq.Auth.Tokens.{Jose, version}
use aegisiq.Models.User.{User}
use aegisiq.Auth.Password.{validate}
use aegisiq.Auth.Calls.{
  Call, logs_in, sends_code, changes_password, logs_out, enrolls, confirms, disables, as_user, call,
  calls,
}
use aegisiq.Prelude.{
  ℕ, ◌≤◌, String, ◌≡◌, refl, inl, inr, Bool, true, false, not, some, List, [], ◌∷◌, map, arith,
  ◌==◌, if◌then◌else◌, str_eq, Bool-cases, Option-cases, codes, All, first-All,
}

-- Every row of the name has at least the version.
abbrev pub AtLeast : String → ℕ → Accounts → Type 0
AtLeast name v db =
    All (λ (u : User). str_eq u.username name ≡ true → v ≤ version u.token_version) db.users

-- A row that replaces another keeps its name and does not take its version back.
abbrev pub Succeeds : User → User → Type 0
Succeeds u new = (new.username ≡ u.username) × (version u.token_version ≤ version new.token_version)

module _ (name : String) (v : ℕ) where
  -- the tables of either branch
  AtLeast-if :
      {R : Type 0} (b : Bool) (x y : R × Accounts)
      → AtLeast name v x.1
      → AtLeast name v y.1
      → AtLeast name v (if◌then◌else◌ {A = R × Accounts} b x y).1
  AtLeast-if true x y h k = h
  AtLeast-if false x y h k = k

  rows-AtLeast :
      (new : User) (rows : List User)
      → (str_eq new.username name ≡ true → v ≤ version new.token_version)
      → All (λ (u : User). str_eq u.username name ≡ true → v ≤ version u.token_version) rows
      → All
          (λ (u : User). str_eq u.username name ≡ true → v ≤ version u.token_version)
          (map (put_row new) rows)
  unfolding put_row
  rows-AtLeast new [] n h = tt
  rows-AtLeast new (u ∷ rows) n h = elim (Bool-cases (u.id == new.id)) [
    | inl its ↦ rw (its, if◌then◌else◌) (n, rows-AtLeast new rows n h.1)
    | inr other ↦ rw (other, if◌then◌else◌) (h.0, rows-AtLeast new rows n h.1)
  ]

  -- replacing the row of a user of the table by its successor
  put_user-AtLeast :
      (key : String) (user new : User) (db : Accounts)
      → find_user key db ≡ some user
      → Succeeds user new
      → (tables : Accounts) → tables.users ≡ db.users
      → AtLeast name v db
      → AtLeast name v (put_user new tables)
  unfolding find_user put_user
  put_user-AtLeast key user new db found s tables same h =
      let old =
        first-All (λ (u : User). str_eq u.username name ≡ true → v ≤ version u.token_version)
          (λ (u : User). str_eq u.username key) db.users user h found in
      rows-AtLeast new tables.users (λ e. omega (arith, old (rw (← s.0) e), s.1)) (rw same h)

after_success-Succeeds : (now : ℕ) (user : User) → Succeeds user (signed_in_row now user)
unfolding signed_in_row after_success
after_success-Succeeds now user = ground arith

after_failure-Succeeds :
    (policy : Policy) (now : ℕ) (user : User) → Succeeds user (after_failure policy now user).1
unfolding after_failure
after_failure-Succeeds policy now user = ground arith

changed-Succeeds :
    (crypto : Crypto) (now : ℕ) (new : String) (user : User)
    → Succeeds user (changed_row crypto now new user)
unfolding changed_row
changed-Succeeds crypto now new user = ground arith

revoked-Succeeds : (user : User) → Succeeds user (revoked_row user)
unfolding revoked_row
revoked-Succeeds user = ground arith

module _ (jose : Jose) (policy : Policy) (crypto : Crypto) where
  users-verify_code :
      (now : ℕ) (user : User) (code : String) (db : Accounts)
      → (verify_code policy crypto now user code db).1.users ≡ db.users
  unfolding verify_code put_mfa
  users-verify_code now user code db = ground arith

  users-enroll :
      (envelope : String) (user : User) (db : Accounts)
      → (enroll envelope user db).1.users ≡ db.users
  unfolding enroll put_mfa
  users-enroll envelope user db = ground arith

  users-confirm :
      (now : ℕ) (codes : List String) (user : User) (code : String) (db : Accounts)
      → (confirm jose policy crypto now codes user code db).1.users ≡ db.users
  unfolding confirm put_mfa
  users-confirm now codes user code db = ground arith

  users-disable :
      (now : ℕ) (user : User) (code : String) (db : Accounts)
      → (disable policy crypto now user code db).1.users ≡ db.users
  unfolding disable put_mfa
  users-disable now user code db = ground (arith, users-verify_code now user code db)

  module _ (name : String) (v : ℕ) where
    login-AtLeast :
        (now : ℕ) (username password : String) (db : Accounts)
        → AtLeast name v db
        → AtLeast name v (login jose policy crypto now username password db).1
    unfolding login login_user password_passed register_failure
    login-AtLeast now username password db h = elim (Option-cases (find_user username db)) [
      | inl unknown ↦ rw (unknown, login) h
      | inr (user, found) ↦
          let failed =
            put_user-AtLeast name v username user _ db found
              (after_failure-Succeeds policy now user) db refl h in
          let passed =
            put_user-AtLeast name v username user _ db found (after_success-Succeeds now user) db
              refl h in
          rw (found, login)
            (AtLeast-if name v (is_locked now user) _ _ h (
              AtLeast-if name v (not user.is_active) _ _ h (
                AtLeast-if name v (not (crypto.verify_password password user.password_hash)) _ _
                  (AtLeast-if name v (policy.lockout_threshold == 0) _ _ h failed)
                  (AtLeast-if name v (login_requires_second_factor policy user db) _ _ h passed))))
    ]

    verify_user-AtLeast :
        (now : ℕ) (key : String) (user : User) (code : String) (db : Accounts)
        → find_user key db ≡ some user
        → AtLeast name v db
        → AtLeast name v (verify_user jose policy crypto now user code db).1
    unfolding verify_user
    verify_user-AtLeast now key user code db found h =
        let same = users-verify_code now user code db in
        let checked = (verify_code policy crypto now user code db).1 in
        AtLeast-if name v (is_no_match (verify_code policy crypto now user code db).0) _ _
          (rw same h)
          (put_user-AtLeast name v key user _ db found (after_success-Succeeds now user) checked
            same h)

    mfa_verify-AtLeast :
        (now : ℕ) (token code : String) (db : Accounts)
        → AtLeast name v db
        → AtLeast name v (mfa_verify jose policy crypto now token code db).1
    unfolding mfa_verify verify_claims
    mfa_verify-AtLeast now token code db h = elim (Option-cases (jose.decode now token)) [
      | inl bad ↦ rw (bad, mfa_verify) h
      | inr (claims, d) ↦
          rw (d, mfa_verify)
            (elim (Option-cases claims.sub) [
              | inl no_sub ↦ rw (no_sub, verify_claims) h
              | inr (key, sub) ↦
                  rw (sub, verify_claims)
                    (AtLeast-if name v (not claims.mfa_pending) _ _ h
                      (elim (Option-cases (find_user key db)) [
                        | inl unknown ↦ rw unknown h
                        | inr (user, found) ↦
                            rw found (verify_user-AtLeast now key user code db found h)
                      ]))
            ])
    ]

    -- a call for the current user, whose row it may replace by a successor
    as_user-AtLeast :
        (now : ℕ) (r : Request) (act : User → Accounts) (db : Accounts)
        → ((key : String) (user : User) → find_user key db ≡ some user → AtLeast name v (act user))
        → AtLeast name v db
        → AtLeast name v (as_user (get_current_user jose now r db) act db)
    unfolding as_user
    as_user-AtLeast now r act db acts h = go (get_current_user jose now r db) refl
      where
        go : (a : Access) → get_current_user jose now r db ≡ a → AtLeast name v (as_user a act db)
        go (denied d) e = h
        go (allowed user) e =
            let a = (get_current_user_iff jose now db r user).0 e in acts a.name user a.found

    enrolling-AtLeast :
        (access : Access) (act : User → Accounts) (db : Accounts)
        → ((user : User) → (act user).users ≡ db.users)
        → AtLeast name v db
        → AtLeast name v (as_user access act db)
    unfolding as_user
    enrolling-AtLeast (denied d) act db same h = h
    enrolling-AtLeast (allowed user) act db same h = rw (same user) h

    pub call-AtLeast :
        (c : Call) (db : Accounts)
        → AtLeast name v db
        → AtLeast name v (call jose policy crypto c db)
    unfolding call change_password logout
    call-AtLeast (logs_in now username password) db h = login-AtLeast now username password db h
    call-AtLeast (sends_code now token code) db h = mfa_verify-AtLeast now token code db h
    call-AtLeast (changes_password now r current new) db h =
        as_user-AtLeast now r _ db
          (λ key user found.
            AtLeast-if name v (not (crypto.verify_password current user.password_hash)) _ _ h (
              AtLeast-if name v (not (is_clean (validate new user.username))) _ _ h (
                AtLeast-if name v (crypto.verify_password new user.password_hash) _ _ h (
                  put_user-AtLeast name v key user _ db found (changed-Succeeds crypto now new user)
                    db refl h))))
          h
    call-AtLeast (logs_out now r) db h =
        as_user-AtLeast now r _ db
          (λ key user found.
            put_user-AtLeast name v key user _ db found (revoked-Succeeds user) db refl h)
          h
    call-AtLeast (enrolls now r envelope) db h =
        enrolling-AtLeast _ _ db (λ user. users-enroll envelope user db) h
    call-AtLeast (confirms now r codes code) db h =
        enrolling-AtLeast _ _ db (λ user. users-confirm now codes user code db) h
    call-AtLeast (disables now r code) db h =
        enrolling-AtLeast _ _ db (λ user. users-disable now user code db) h

    pub calls-AtLeast :
        (cs : List Call) (db : Accounts)
        → AtLeast name v db
        → AtLeast name v (calls jose policy crypto cs db)
    unfolding calls
    calls-AtLeast [] db h = h
    calls-AtLeast (c ∷ cs) db h =
        calls-AtLeast cs (call jose policy crypto c db) (call-AtLeast c db h)
