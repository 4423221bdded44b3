-- ===== src/Security/Window.antt =====
-- How much the limiter of backend/app/security/rate_limit.py lets through, and when it does again.
use aegisiq.Security.RateLimit.{
  Limiter, Bucket, Buckets, one_token, bucket_of, put_bucket, refill, spend, consume, answer_of,
  check,
}
use mathlib.Core.Path.{subst}
use native.Mathlib.Nat.{add-mul, zero-mul}
use aegisiq.Prelude.{
  ℕ, suc, ◌+◌, ◌-◌, ◌*◌, ◌≤◌, String, ◌≡◌, refl, sym, ap, ◌∙◌, inl, inr, Bool, false, Option, none,
  some, List, [], ◌∷◌, arith, ◌==◌, if◌then◌else◌, str_eq, str_eq_iff, str_eq_refl, Bool-cases,
  is_some, before, after, all,
}

-- the calls of all callers: the instant, and the identity
abbrev pub Calls : Type 0
Calls = List (ℕ × String)

-- The instants do not decrease, from one instant to another.
unfoldable pub Within : ℕ → ℕ → Calls → Type 0
Within start stop [] = start ≤ stop
Within start stop ((now, identity) ∷ calls) = (start ≤ now) × Within now stop calls

pub bucket-put :
    (identity : String) (b : Bucket) (buckets : Buckets)
    → bucket_of identity (put_bucket identity b buckets) ≡ some b
unfolding bucket_of put_bucket
bucket-put identity b [] = rw (str_eq_refl identity, if◌then◌else◌) refl
bucket-put identity b ((k, c) ∷ buckets) = elim (Bool-cases (str_eq k identity)) [
  | inl same ↦ ground (arith, same)
  | inr other ↦ ground (arith, other, bucket-put identity b buckets)
]

pub bucket-put-other :
    (identity other : String) (b : Bucket) (buckets : Buckets)
    → str_eq other identity ≡ false
    → bucket_of identity (put_bucket other b buckets) ≡ bucket_of identity buckets
unfolding bucket_of put_bucket
bucket-put-other identity other b [] h = rw (h, if◌then◌else◌) refl
bucket-put-other identity other b ((k, c) ∷ buckets) h = ground (
  arith,
  h,
  str_eq_iff k other,
  str_eq_iff k identity,
  str_eq_iff other identity,
  bucket-put-other identity other b buckets h,
)

elapsed-mul : (a b c r : ℕ) → a ≤ b → b ≤ c → (c - a) * r ≡ (b - a) * r + (c - b) * r
elapsed-mul a b c r h k =
    let parts : c - a ≡ (b - a) + (c - b) = omega (arith, h, k) in
    ap (λ n. n * r) parts ∙ add-mul (b - a) (c - b) r

Within-le : (start stop : ℕ) (calls : Calls) → Within start stop calls → start ≤ stop
unfolding Within
Within-le start stop [] w = w
Within-le start stop ((now, caller) ∷ calls) w = omega (arith, w.0, Within-le now stop calls w.1)

module _ (l : Limiter) where
  -- how many calls of an identity a run lets through
  unfoldable pub let_through : String → Calls → Buckets → ℕ
  unfolding check
  let_through identity [] buckets = 0
  let_through identity ((now, caller) ∷ calls) buckets =
      let (answer, buckets') = check l now caller buckets in
      let rest = let_through identity calls buckets' in
      if str_eq caller identity then (if is_some answer then rest else suc rest) else rest

  -- what an identity could spend at an instant
  level : ℕ → Option Bucket → ℕ
  level now none = l.burst * one_token
  level now (some b) = refill l now b

  -- A bucket that was last filled before an instant.
  Older : ℕ → Option Bucket → Type 0
  Older now none = Unit
  Older now (some b) = b.last_refill ≤ now

  Older-later : (start now : ℕ) (b : Option Bucket) → Older start b → start ≤ now → Older now b
  unfolding Older
  Older-later start now none h k = tt
  Older-later start now (some b) h k = omega (arith, h, k)

  level-later :
      (start now : ℕ) (b : Option Bucket)
      → Older start b
      → start ≤ now
      → level now b ≤ level start b + (now - start) * l.rate_per_minute
  unfolding level Older refill
  level-later start now none h k = omega arith
  level-later start now (some b) h k =
      omega (arith, elapsed-mul b.last_refill start now l.rate_per_minute h k)

  -- a call takes its token from the level
  consume-level :
      (now : ℕ) (b : Option Bucket)
      → 1 ≤ l.burst
      → (l.rate_per_minute == 0) ≡ false
      → (if is_some (answer_of l (consume l now b).0) then 0 else one_token)
          + level now (some (consume l now b).1)
        ≤ level now b
  unfolding level consume spend answer_of refill is_some
  consume-level now none one rate = ground (arith, one, rate, zero-mul l.rate_per_minute)
  consume-level now (some b) one rate = ground (arith, one, rate, zero-mul l.rate_per_minute)

  refilled_at : (now : ℕ) (b : Option Bucket) → (consume l now b).1.last_refill ≡ now
  unfolding consume spend
  refilled_at now none = refl
  refilled_at now (some b) = ground arith

  -- What a run lets through, and the level that is left, come from the level and the time.
  budget :
      (rest after before start_level now_on all : ℕ)
      → (limited : Bool) → (if limited then 0 else one_token) + after ≤ before
      → rest * one_token ≤ after + now_on
      → before + now_on ≤ start_level + all
      → (if limited then rest else suc rest) * one_token ≤ start_level + all
  budget rest after before start_level now_on all limited used later total =
      ground (arith, used, later, total)

  let_through-level :
      (identity : String) (start stop : ℕ) (calls : Calls) (buckets : Buckets)
      → 1 ≤ l.burst
      → (l.rate_per_minute == 0) ≡ false
      → Within start stop calls
      → Older start (bucket_of identity buckets)
      → let_through identity calls buckets * one_token
        ≤ level start (bucket_of identity buckets) + (stop - start) * l.rate_per_minute
  unfolding let_through Within check Older
  let_through-level identity start stop [] buckets one rate w h = omega arith
  let_through-level identity start stop ((now, caller) ∷ calls) buckets one rate w h =
      let r = l.rate_per_minute in
      let b = bucket_of identity buckets in
      let total : level now b + (stop - now) * r ≤ level start b + (stop - start) * r = omega (
        arith,
        level-later start now b h w.0,
        elapsed-mul start now stop r w.0 (Within-le now stop calls w.1),
      ) in
      elim (Bool-cases (str_eq caller identity)) [
        | inl same ↦
            let is_it : caller ≡ identity = (str_eq_iff caller identity).0 same in
            let after = (consume l now b).1 in
            let stored = bucket-put identity after buckets in
            let later =
              let_through-level identity now stop calls (put_bucket identity after buckets) one rate
                w.1 (subst (Older now) (sym stored) (omega (arith, refilled_at now b))) in
            rw (is_it, str_eq_refl identity, if◌then◌else◌)
              (budget (let_through identity calls (put_bucket identity after buckets))
                (level now (some after)) (level now b) (level start b) ((stop - now) * r)
                ((stop - start) * r) (is_some (answer_of l (consume l now b).0))
                (consume-level now b one rate)
                (subst
                  (λ o.
                    let_through identity calls (put_bucket identity after buckets) * one_token
                    ≤ level now o + (stop - now) * r)
                  stored later)
                total)
        | inr other ↦
            let after = (consume l now (bucket_of caller buckets)).1 in
            let left = bucket-put-other identity caller after buckets other in
            let later =
              let_through-level identity now stop calls (put_bucket caller after buckets) one rate
                w.1 (subst (Older now) (sym left) (Older-later start now b h w.0)) in
            rw (other, if◌then◌else◌)
              (omega (
                arith,
                subst
                    (λ o.
                      let_through identity calls (put_bucket caller after buckets) * one_token
                      ≤ level now o + (stop - now) * r)
                    left later,
                total,
              ))
      ]

  level-le : (now : ℕ) (b : Option Bucket) → level now b ≤ l.burst * one_token
  unfolding level refill
  level-le now none = omega arith
  level-le now (some b) = omega arith

  filled-Older :
      (start : ℕ) (b : Option Bucket)
      → ((c : Bucket) → b ≡ some c → c.last_refill ≤ start)
      → Older start b
  unfolding Older
  filled-Older start none h = tt
  filled-Older start (some b) h = h b refl

  -- Whatever the callers do, between two instants an identity is let through at most as often as the
  -- burst and what the rate adds in the time: with T microseconds and the rate r a minute, the number
  -- times sixty million is at most the burst times sixty million, and T times r. The burst is not
  -- zero, nor is the rate, and the identity's bucket was not filled after the first instant.
  pub let_through-bound :
      (identity : String) (start stop : ℕ) (calls : Calls) (buckets : Buckets)
      → 1 ≤ l.burst
      → (l.rate_per_minute == 0) ≡ false
      → Within start stop calls
      → ((b : Bucket) → bucket_of identity buckets ≡ some b → b.last_refill ≤ start)
      → let_through identity calls buckets * one_token
        ≤ l.burst * one_token + (stop - start) * l.rate_per_minute
  let_through-bound identity start stop calls buckets one rate w older = omega (
    arith,
    let_through-level identity start stop calls buckets one rate w
        (filled-Older start (bucket_of identity buckets) older),
    level-le start (bucket_of identity buckets),
  )
