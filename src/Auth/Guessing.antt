-- ===== src/Auth/Guessing.antt =====
-- How many wrong passwords the lock of backend/app/security/lockout.py lets through to the check.
use aegisiq.Auth.Accounts.{Policy, Crypto, Accounts, find_user, put_user}
use aegisiq.Auth.Lockout.{is_locked, after_failure, register_failure}
use aegisiq.Auth.Login.{LoginResult, refused, login, login_user}
use aegisiq.Auth.Rows.{find_user-put_user}
use aegisiq.Auth.Tokens.{Jose}
use aegisiq.Models.Log.{seconds}
use aegisiq.Models.User.{User}
use aegisiq.Prelude.{
  ℕ, ◌+◌, ◌-◌, ◌*◌, ◌≤◌, ◌<◌, String, ◌≡◌, refl, inl, inr, Bool, true, false, not, ◌&&◌, ◌||◌, some,
  List, [], ◌∷◌, arith, leb, if◌then◌else◌, Bool-cases, All,
}

unfoldable pub is_refused : LoginResult → Bool
is_refused refused = true
is_refused _ = false

module _ (jose : Jose) (policy : Policy) (crypto : Crypto) (username : String) where
  -- Whether a login at the instant is refused when the comparison of its password has a given outcome.
  pub refused_if : Bool → ℕ → String → Accounts → Bool
  refused_if outcome now password db =
      is_refused
        (login jose policy (record crypto { verify_password = λ _ _. outcome }) now username
          password db).0

  -- Whether the answer of a login depends on the comparison.
  pub compares : ℕ → String → Accounts → Bool
  compares now password db =
      refused_if false now password db && not (refused_if true now password db)

  -- How many answers of a run of logins, each an instant and a password, depend on it.
  pub comparisons : List (ℕ × String) → Accounts → ℕ
  comparisons [] db = 0
  comparisons ((now, password) ∷ attempts) db =
      (if compares now password db then 1 else 0)
      + comparisons attempts (login jose policy crypto now username password db).1

  -- A wrong password inside the window that starts at `start`.
  abbrev pub IsGuess : ℕ → String → ℕ × String → Type 0
  IsGuess start hash attempt =
      (start ≤ attempt.0)
      × (attempt.0 < start + seconds (policy.lockout_minutes * 60))
      × (crypto.verify_password attempt.1 hash ≡ false)

  module _ (start : ℕ) where
    blocked :
        (now : ℕ) (password : String) (db : Accounts) (user : User)
        → find_user username db ≡ some user
        → (is_locked now user || not user.is_active) ≡ true
        → (compares now password db ≡ false)
          × ((login jose policy crypto now username password db).1 ≡ db)
    unfolding compares refused_if is_refused login login_user
    blocked now password db user found stop = rw (found, login) (ground (arith, stop))

    counted :
        (now : ℕ) (password : String) (db : Accounts) (user : User)
        → find_user username db ≡ some user
        → is_locked now user ≡ false
        → user.is_active ≡ true
        → crypto.verify_password password user.password_hash ≡ false
        → (login jose policy crypto now username password db).1
          ≡ (register_failure policy now user db).1
    unfolding login login_user
    counted now password db user found free active wrong =
        rw (found, login) (ground (arith, free, active, wrong))

    -- while a lock outlasts the window, nothing is compared
    comparisons-locked :
        (attempts : List (ℕ × String)) (db : Accounts) (user : User) (until : ℕ)
        → All (IsGuess start user.password_hash) attempts
        → find_user username db ≡ some user
        → user.locked_until ≡ some until
        → start + seconds (policy.lockout_minutes * 60) ≤ until
        → comparisons attempts db ≡ 0
    unfolding comparisons is_locked
    comparisons-locked [] db user until guesses found lock outlasts = refl
    comparisons-locked ((now, password) ∷ attempts) db user until guesses found lock outlasts =
        let locked : is_locked now user ≡ true = ground (arith, lock, outlasts, guesses.0) in
        let (none_now, same) = blocked now password db user found (ground (arith, locked)) in
        let rest = comparisons-locked attempts db user until guesses.1 found lock outlasts in
        rw (none_now, same) (omega (arith, rest))

    register_failure-put_user :
        (now : ℕ) (user : User) (db : Accounts)
        → 1 ≤ policy.lockout_threshold
        → (register_failure policy now user db).1 ≡ put_user (after_failure policy now user).1 db
    unfolding register_failure
    register_failure-put_user now user db on = ground (arith, on)

    after_failure-kept :
        (now : ℕ) (user : User)
        → ((after_failure policy now user).1.id ≡ user.id)
          × ((after_failure policy now user).1.username ≡ user.username)
          × ((after_failure policy now user).1.password_hash ≡ user.password_hash)
    unfolding after_failure
    after_failure-kept now user = ground arith

    after_failure-locks :
        (now : ℕ) (user : User)
        → leb policy.lockout_threshold (user.failed_login_count + 1) ≡ true
        → (after_failure policy now user).1.locked_until
          ≡ some (now + seconds (policy.lockout_minutes * 60))
    unfolding after_failure
    after_failure-locks now user trips = ground (arith, trips)

    after_failure-counts :
        (now : ℕ) (user : User)
        → leb policy.lockout_threshold (user.failed_login_count + 1) ≡ false
        → (after_failure policy now user).1.failed_login_count ≡ user.failed_login_count + 1
    unfolding after_failure
    after_failure-counts now user more = ground (arith, more)

    comparisons-le :
        (attempts : List (ℕ × String)) (db : Accounts) (user : User) (left : ℕ)
        → 1 ≤ policy.lockout_threshold
        → All (IsGuess start user.password_hash) attempts
        → find_user username db ≡ some user
        → 1 ≤ left
        → policy.lockout_threshold ≤ user.failed_login_count + left
        → comparisons attempts db ≤ left
    unfolding comparisons
    comparisons-le [] db user left on guesses found some_left enough = omega arith
    comparisons-le ((now, password) ∷ attempts) db user left on guesses found some_left enough =
        elim (Bool-cases (is_locked now user || not user.is_active)) [
          | inl stop ↦
              let (none_now, same) = blocked now password db user found stop in
              let rest = comparisons-le attempts db user left on guesses.1 found some_left enough in
              rw (none_now, same) (omega (arith, rest))
          | inr go ↦
              let free : is_locked now user ≡ false = ground (arith, go) in
              let active : user.is_active ≡ true = ground (arith, go) in
              let next = counted now password db user found free active guesses.0.2 in
              let failure = register_failure-put_user now user db on in
              let fresh = (after_failure policy now user).1 in
              let stays = after_failure-kept now user in
              let found' = find_user-put_user username db user fresh found stays.0 stays.1 in
              let wrong : All (IsGuess start fresh.password_hash) attempts =
                rw (stays.2) guesses.1 in
              rw (next, failure)
                (elim (Bool-cases (leb policy.lockout_threshold (user.failed_login_count + 1))) [
                  | inl trips ↦
                      let rest =
                        comparisons-locked attempts (put_user fresh db) fresh _ wrong found'
                          (after_failure-locks now user trips) (omega (arith, guesses.0.0)) in
                      ground (arith, rest, some_left)
                  | inr more ↦
                      let rest =
                        comparisons-le attempts (put_user fresh db) fresh (left - 1) on wrong found'
                          (ground (arith, more, enough))
                          (rw (after_failure-counts now user more)
                            (ground (arith, more, enough))) in
                      ground (arith, rest, some_left)
                ])
        ]

  -- When the threshold is not zero, wrong passwords tried against an account within one lockout
  -- period, at any instants and in any number, get an answer that depends on the comparison with its hash
  -- at most as often as the threshold: every other one is refused whether it is right or wrong.
  pub comparisons-bound :
      (start : ℕ) (attempts : List (ℕ × String)) (db : Accounts) (user : User)
      → 1 ≤ policy.lockout_threshold
      → find_user username db ≡ some user
      → All (IsGuess start user.password_hash) attempts
      → comparisons attempts db ≤ policy.lockout_threshold
  comparisons-bound start attempts db user on found guesses =
      comparisons-le start attempts db user policy.lockout_threshold on guesses found on
        (omega arith)
