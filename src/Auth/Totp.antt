-- ===== src/Auth/Totp.antt =====
-- backend/app/security/totp.py: the check of a one-time code. The HOTP code of a secret and a
-- counter is a parameter, since it is the digest of a library; the clock is at least one window
-- past the epoch, where the counter is not negative.
use aegisiq.Prelude.{
  ℕ, zero, suc, ◌+◌, ◌-◌, ◌/◌, ◌≤◌, ◌<◌, String, ◌≡◌, refl, ◌↔◌, inl, inr, Bool, true, false, not,
  ◌&&◌, ◌||◌, List, [], ◌∷◌, arith, leb, ◌==◌, if◌then◌else◌, str_eq, str_eq_iff, Bool-cases,
  ==_iff, codes, strip, any, all,
}

is_digit : ℕ → Bool
is_digit n = leb 48 n && leb n 57

-- `s.isdigit()`, for ASCII digits
unfoldable pub is_digits : String → Bool
unfolding is_digit
is_digits s = not (str_eq s "") && all is_digit (codes s)

-- `range(start, start + n)`
unfoldable pub steps : ℕ → ℕ → List ℕ
steps start zero = []
steps start (suc n) = start ∷ steps (start + 1) n

-- `int(time.time() // _PERIOD)`
abbrev pub step_of : ℕ → ℕ
step_of now = now / 30_000_000

-- `totp.verify`
unfoldable pub totp_verify : (String → ℕ → String) → String → String → ℕ → ℕ → Bool
unfolding is_digits steps
totp_verify otp secret code window now =
    if str_eq code "" || not (is_digits (strip code))
    then false
    else any (λ step. str_eq (otp secret step) (strip code))
        (steps (step_of now - window) (window + (window + 1)))

-- A step of the range with the property.
abbrev Hit : (ℕ → Bool) → ℕ → ℕ → Type 0
Hit p start n = (k : ℕ) × (start ≤ k) × (k < start + n) × (p k ≡ true)

any-steps : (p : ℕ → Bool) (start n : ℕ) → any p (steps start n) ≡ true → Hit p start n
unfolding any steps
any-steps p start zero h = absurd (ground (arith, h))
any-steps p start (suc n) h = elim (Bool-cases (p start)) [
  | inl hit ↦ (start, omega arith, omega arith, hit)
  | inr miss ↦
      let (k, from, below, hit) = any-steps p (start + 1) n (ground (arith, h, miss)) in
      (k, omega (arith, from), omega (arith, below), hit)
]

steps-any :
    (p : ℕ → Bool) (start n k : ℕ)
    → start ≤ k
    → k < start + n
    → p k ≡ true
    → any p (steps start n) ≡ true
unfolding any steps
steps-any p start zero k from below hit = absurd (omega (arith, from, below))
steps-any p start (suc n) k from below hit = elim (Bool-cases (start == k)) [
  | inl here ↦ rw ((==_iff start k).0 here, hit) refl
  | inr later ↦
      let rest = steps-any p (start + 1) n k (ground (arith, later)) (omega (arith, below)) hit in
      ground (arith, rest)
]

-- What makes a code right: digits, and the code of a step no more than the window away.
abbrev pub IsCodeOf : (String → ℕ → String) → String → String → ℕ → ℕ → Type 0
IsCodeOf otp secret code window now =
    (is_digits (strip code) ≡ true)
    × ((k : ℕ) × (step_of now ≤ k + window)
        × (k ≤ step_of now + window)
        × (otp secret k ≡ strip code))

accepted :
    (otp : String → ℕ → String) (secret code : String) (window now : ℕ)
    → window ≤ step_of now
    → totp_verify otp secret code window now ≡ true
    → IsCodeOf otp secret code window now
unfolding totp_verify
accepted otp secret code window now far h =
    let start = step_of now - window in
    let p = (λ (step : ℕ). str_eq (otp secret step) (strip code)) in
    let (k, from, below, hit) = any-steps p start (window + (window + 1)) (ground (arith, h)) in
    (
      ground (arith, h),
      (
        k,
        omega (arith, from),
        omega (arith, below, far),
        (str_eq_iff (otp secret k) (strip code)).0 hit,
      ),
    )

accepts :
    (otp : String → ℕ → String) (secret code : String) (window now : ℕ)
    → str_eq code "" ≡ false
    → IsCodeOf otp secret code window now
    → totp_verify otp secret code window now ≡ true
unfolding totp_verify
accepts otp secret code window now filled (digits, (k, from, below, hit)) =
    let p = (λ (step : ℕ). str_eq (otp secret step) (strip code)) in
    let found =
      steps-any p (step_of now - window) (window + (window + 1)) k (omega (arith, from))
        (omega (arith, below)) ((str_eq_iff (otp secret k) (strip code)).1 hit) in
    ground (arith, found, digits, filled)

-- At least one window after the epoch, a code that is not empty is accepted exactly when, stripped,
-- it is digits and is the HOTP code of a step no more than the window away from the current one.
pub totp_verify_iff :
    (otp : String → ℕ → String) (secret code : String) (window now : ℕ)
    → window ≤ step_of now
    → str_eq code "" ≡ false
    → (totp_verify otp secret code window now ≡ true) ↔ IsCodeOf otp secret code window now
totp_verify_iff otp secret code window now far filled =
    (accepted otp secret code window now far, accepts otp secret code window now filled)
