-- ===== src/Security/RateLimit.antt =====
-- The in-process limiter of backend/app/security/rate_limit.py. Instants are microseconds of the
-- monotonic clock. Tokens are exact: the float 1.0 is 60000000 units, so that a rate of one token a minute
-- adds one unit each microsecond. The burst is at least one token.
use aegisiq.Prelude.{
  ℕ, ◌+◌, ◌-◌, ◌*◌, ◌/◌, min, String, Option, none, some, List, [], ◌∷◌, leb, ◌==◌, if◌then◌else◌,
  str_eq,
}

pub record Limiter : Type 0 where
  pub rate_per_minute : ℕ
  pub burst : ℕ

pub record Bucket : Type 0 where
  pub tokens : ℕ
  pub last_refill : ℕ

-- the buckets by identity
abbrev pub Buckets : Type 0
Buckets = List (String × Bucket)

-- the module's two limiters
abbrev pub auth_limiter : Limiter
auth_limiter = record { rate_per_minute = 10; burst = 5 }

abbrev pub mutate_limiter : Limiter
mutate_limiter = record { rate_per_minute = 60; burst = 20 }

abbrev pub one_token : ℕ
one_token = 60_000_000

-- `self._buckets.get(identity)`
unfoldable pub bucket_of : String → Buckets → Option Bucket
bucket_of identity [] = none
bucket_of identity ((k, b) ∷ buckets) =
    let later = bucket_of identity buckets in if str_eq k identity then some b else later

-- `self._buckets[identity] = bucket`
unfoldable pub put_bucket : String → Bucket → Buckets → Buckets
put_bucket identity b [] = (identity, b) ∷ []
put_bucket identity b ((k, c) ∷ buckets) =
    let later = put_bucket identity b buckets in
    if str_eq k identity then (k, b) ∷ buckets else (k, c) ∷ later

-- What `_consume` does: 0.0, the units that are missing, or the `ZeroDivisionError` of a rate of zero.
pub data Consumed : Type 0 where
  granted : Consumed
  missing : ℕ → Consumed
  crashed : Consumed

module _ (l : Limiter) where
  -- the tokens at an instant
  unfoldable pub refill : ℕ → Bucket → ℕ
  refill now b = min (l.burst * one_token) (b.tokens + (now - b.last_refill) * l.rate_per_minute)

  unfoldable pub spend : ℕ → ℕ → Consumed × Bucket
  spend now tokens =
      if leb one_token tokens
      then (granted, record { tokens = tokens - one_token; last_refill = now })
      else (
        if l.rate_per_minute == 0 then crashed else missing (one_token - tokens),
        record { tokens = tokens; last_refill = now },
      )

  -- `_consume`, on the bucket of the identity
  unfoldable pub consume : ℕ → Option Bucket → Consumed × Bucket
  unfolding refill spend
  consume now none = (granted, record { tokens = (l.burst - 1) * one_token; last_refill = now })
  consume now (some b) = spend now (refill now b)

  -- `int(wait) + 1`, in seconds
  unfoldable pub retry_after : ℕ → ℕ
  retry_after needed = needed / (l.rate_per_minute * 1_000_000) + 1

  -- Whether `check` lets the call through, or the seconds of the `Retry-After` of its 429.
  unfoldable pub answer_of : Consumed → Option ℕ
  unfolding retry_after
  answer_of granted = none
  answer_of (missing needed) = some (retry_after needed)
  answer_of crashed = none

  -- `check`: none lets the call through
  unfoldable pub check : ℕ → String → Buckets → Option ℕ × Buckets
  unfolding consume answer_of
  check now identity buckets =
      let (outcome, bucket) = consume now (bucket_of identity buckets) in
      (answer_of outcome, put_bucket identity bucket buckets)

-- `reset`
unfoldable pub drop_bucket : String → Buckets → Buckets
drop_bucket identity [] = []
drop_bucket identity ((k, b) ∷ buckets) =
    let later = drop_bucket identity buckets in if str_eq k identity then later else (k, b) ∷ later

unfoldable pub reset : Option String → Buckets → Buckets
unfolding drop_bucket
reset none buckets = []
reset (some identity) buckets = drop_bucket identity buckets
