-- ===== src/Security/Retry.antt =====
-- Waiting as long as the limiter of backend/app/security/rate_limit.py says is enough.
use aegisiq.Security.RateLimit.{
  Limiter, Bucket, Buckets, one_token, bucket_of, put_bucket, refill, spend, consume, retry_after,
  answer_of, check,
}
use aegisiq.Security.Window.{Calls, bucket-put, bucket-put-other}
use mathlib.Core.Path.{subst}
use native.Mathlib.Nat.{
  add-mul, mul-le-mul_right, div-add-mod', mod-lt, mul_comm, mul_assoc, one-mul,
}
use aegisiq.Prelude.{
  ℕ, ◌+◌, ◌-◌, ◌*◌, ◌/◌, ◌%◌, ◌≤◌, ◌<◌, String, ◌≡◌, refl, ap, ◌∙◌, inl, inr, false, Option, none,
  some, [], ◌∷◌, arith, leb, ◌==◌, str_eq, Bool-cases, All,
}

module _ (l : Limiter) where
  -- the buckets after calls of others
  unfoldable pub run_checks : Calls → Buckets → Buckets
  unfolding check
  run_checks [] buckets = buckets
  run_checks ((now, caller) ∷ calls) buckets = run_checks calls (check l now caller buckets).1

  unaffected :
      (identity : String) (calls : Calls) (buckets : Buckets)
      → All (λ c. str_eq c.1 identity ≡ false) calls
      → bucket_of identity (run_checks calls buckets) ≡ bucket_of identity buckets
  unfolding run_checks check
  unaffected identity [] buckets h = refl
  unaffected identity ((now, caller) ∷ calls) buckets h =
      unaffected identity calls (check l now caller buckets).1 h.1
      ∙ bucket-put-other identity caller _ buckets h.0

  -- the seconds cover what is missing
  covered :
      (needed : ℕ)
      → (l.rate_per_minute == 0) ≡ false
      → needed ≤ retry_after l needed * 1_000_000 * l.rate_per_minute
  unfolding retry_after
  covered needed rate =
      let r = l.rate_per_minute in
      let q = needed / (r * 1_000_000) in
      let split_up : q * (r * 1_000_000) + needed % (r * 1_000_000) ≡ needed =
        div-add-mod' needed (r * 1_000_000) in
      let below : needed % (r * 1_000_000) < r * 1_000_000 = mod-lt needed (ground (arith, rate)) in
      let grouped : (q + 1) * 1_000_000 * r ≡ q * (r * 1_000_000) + r * 1_000_000 =
        mul_assoc (q + 1) 1_000_000 r
        ∙ (ap (λ n. (q + 1) * n) (mul_comm 1_000_000 r)
            ∙ (add-mul q 1 (r * 1_000_000)
                ∙ ap (λ n. q * (r * 1_000_000) + n) (one-mul (r * 1_000_000)))) in
      omega (arith, split_up, below, grouped)

  short :
      (now s tokens : ℕ)
      → answer_of l (spend l now tokens).0 ≡ some s
      → ((spend l now tokens).1.last_refill ≡ now)
        × ((l.rate_per_minute == 0) ≡ false)
        × (one_token ≤ (spend l now tokens).1.tokens + s * 1_000_000 * l.rate_per_minute)
  unfolding spend answer_of
  short now s tokens h = elim (Bool-cases (leb one_token tokens)) [
    | inl full ↦ absurd (ground (arith, h, full))
    | inr less ↦ elim (Bool-cases (l.rate_per_minute == 0)) [
      | inl stopped ↦ absurd (ground (arith, h, less, stopped))
      | inr runs ↦
          let told : retry_after l (one_token - tokens) ≡ s = ground (arith, h, less, runs) in
          let enough_time : one_token - tokens ≤ s * 1_000_000 * l.rate_per_minute =
            subst (λ n. one_token - tokens ≤ n * 1_000_000 * l.rate_per_minute) told
              (covered (one_token - tokens) runs) in
          ground (arith, less, runs, enough_time)
    ]
  ]

  refused :
      (now s : ℕ) (b : Option Bucket)
      → answer_of l (consume l now b).0 ≡ some s
      → ((consume l now b).1.last_refill ≡ now)
        × ((l.rate_per_minute == 0) ≡ false)
        × (one_token ≤ (consume l now b).1.tokens + s * 1_000_000 * l.rate_per_minute)
  unfolding consume spend answer_of
  refused now s none h = absurd (ground (arith, h))
  refused now s (some b) h = short now s (refill l now b) h

  wait_lem : (now later s : ℕ) → now + s * 1_000_000 ≤ later → s * 1_000_000 ≤ later - now
  wait_lem now later s h = omega (arith, h)

  enough :
      (later : ℕ) (b : Bucket)
      → 1 ≤ l.burst
      → one_token ≤ b.tokens + (later - b.last_refill) * l.rate_per_minute
      → answer_of l (consume l later (some b)).0 ≡ none
  unfolding consume spend refill answer_of
  enough later b one h = ground (arith, one, h)

  -- A caller that is refused and waits at least the seconds of the `Retry-After` is let through by its next
  -- call, however many calls of other identities come in between.
  pub check-retries :
      (now later s : ℕ) (identity : String) (buckets : Buckets) (others : Calls)
      → 1 ≤ l.burst
      → (check l now identity buckets).0 ≡ some s
      → now + s * 1_000_000 ≤ later
      → All (λ c. str_eq c.1 identity ≡ false) others
      → (check l later identity (run_checks others (check l now identity buckets).1)).0 ≡ none
  unfolding check
  check-retries now later s identity buckets others one refusal waited apart =
      let b = bucket_of identity buckets in
      let after = (consume l now b).1 in
      let (filled, runs, owed) = refused now s b refusal in
      let there =
        unaffected identity others (put_bucket identity after buckets) apart
        ∙ bucket-put identity after buckets in
      let longer = mul-le-mul_right l.rate_per_minute (wait_lem now later s waited) in
      ap (λ o. answer_of l (consume l later o).0) there
      ∙ enough later after one (ground (arith, owed, filled, longer))
