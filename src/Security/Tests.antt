-- ===== src/Security/Tests.antt =====
-- The sign-in limiter at work.
use aegisiq.Security.Net.{Peer, rate_limit_identity, rate_limit_identity-forwarded}
use aegisiq.Security.RateLimit.{auth_limiter, Buckets, check, bucket_of, one_token}
use aegisiq.Security.Retry.{run_checks, check-retries}
use aegisiq.Security.Window.{Calls, Within, let_through, let_through-bound}
use aegisiq.Prelude.{
  ◌+◌, ◌-◌, ◌*◌, ◌≤◌, String, ◌≡◌, refl, true, Option, none, some, [], ◌∷◌, arith, if◌then◌else◌,
  str_eq, strip, split,
}

-- six calls of one address in a second, and one of another
abbrev burst : Calls
burst =
    (0, "a")
    ∷ (100_000, "a")
    ∷ (200_000, "b")
    ∷ (300_000, "a")
    ∷ (400_000, "a")
    ∷ (500_000, "a")
    ∷ (600_000, "a")
    ∷ []

burst_Within : Within 0 1_000_000 burst
unfolding Within
burst_Within = omega arith

let_through-bound_example :
    let_through auth_limiter "a" burst [] * one_token ≤ 5 * one_token + (1_000_000 - 0) * 10
unfolding bucket_of
let_through-bound_example =
    let_through-bound auth_limiter "a" 0 1_000_000 burst [] (omega arith) refl burst_Within
      (λ b h. absurd (ground (arith, h)))

-- a bucket without a token
abbrev spent : Buckets
spent = ("a", record { tokens = 0; last_refill = 700_000 }) ∷ []

is_refused : (check auth_limiter 700_000 "a" spent).0 ≡ some 7
unfolding check bucket_of aegisiq.Security.RateLimit.put_bucket str_eq
is_refused = refl

check-retries_example :
    (check auth_limiter 7_700_000 "a"
      (run_checks auth_limiter ((800_000, "b") ∷ []) (check auth_limiter 700_000 "a" spent).1)).0
    ≡ none
unfolding str_eq
check-retries_example =
    check-retries auth_limiter 700_000 7_700_000 7 "a" spent ((800_000, "b") ∷ []) (omega arith)
      is_refused (omega arith) (refl, tt)

-- one address is known
abbrev known : String → Option String
known s = if str_eq s "198.51.100.7" then some s else none

abbrev forged : Peer
forged = record {
  forwarded = some "198.51.100.7, 203.0.113.5";
  real_ip = none;
  host = some "203.0.113.5";
}

rate_limit_identity-forwarded_example : rate_limit_identity known true forged ≡ "198.51.100.7"
unfolding aegisiq.Prelude.split aegisiq.Security.Net.valid_ip str_eq aegisiq.Prelude.strip
rate_limit_identity-forwarded_example =
    rate_limit_identity-forwarded known forged "198.51.100.7, 203.0.113.5" "198.51.100.7"
      "198.51.100.7" (" 203.0.113.5" ∷ []) refl refl refl refl
