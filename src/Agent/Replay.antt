-- ===== src/Agent/Replay.antt =====
-- A signed order is not accepted twice by agent/kill_switch_agent_v2.py while its nonces are kept.
use mathlib.Core.Path.{subst}
use aegisiq.Agent.Signature.{value_of, max_nonces, remember, passes, judge, verify_signature}
use aegisiq.Prelude.{
  ℕ, suc, ◌+◌, ◌≤◌, String, ◌≡◌, refl, sym, ap, ◌∙◌, ◌⊎◌, inl, inr, Bool, true, false, ◌&&◌, Option,
  none, some, List, [], ◌∷◌, arith, if◌then◌else◌, str_eq, str_eq_iff, opt_eq, or_else, Bool-cases,
  le→ltb, split, length, any,
}

-- the calls of a run: the instant, the body and the header
abbrev pub SignedCalls : Type 0
SignedCalls = List (ℕ × (String × String))

unfoldable pub nonce_of : String → Option String
nonce_of header = or_else (value_of "n" (split "," header)) none

module _ (hexdigest : String → String → String) (int : String → Option ℕ) (secret : String) where
  -- how often a run accepts a header with a nonce
  unfoldable pub accepted : String → SignedCalls → List String → ℕ
  unfolding verify_signature nonce_of
  accepted n [] seen = 0
  accepted n ((now, (body, header)) ∷ calls) seen =
      let (ok, seen') = verify_signature hexdigest int now secret body header seen in
      let rest = accepted n calls seen' in
      (if ok && opt_eq (nonce_of header) (some n) then 1 else 0) + rest

  passes-fresh :
      (now : ℕ) (body t n sig : String) (seen : List String)
      → passes hexdigest int now secret body t n sig seen ≡ true
      → any (str_eq n) seen ≡ false
  unfolding passes
  passes-fresh now body t n sig seen e = ground (arith, e)

  -- A call refuses and keeps the set, or accepts a nonce that is not in the set, which then is.
  Verified : Option String → List String → Bool × List String → Type 0
  Verified named seen result =
      (result ≡ (false, seen))
      ⊎ ((m : String) × ((named ≡ some m)
            × ((any (str_eq m) seen ≡ false) × (result ≡ (true, remember m seen)))))

  judge-Verified :
      (now : ℕ) (body : String) (t n sig : Option String) (seen : List String)
      → Verified n seen (judge hexdigest int now secret body t n sig seen)
  unfolding judge Verified
  judge-Verified now body none n sig seen = inl refl
  judge-Verified now body (some t) none sig seen = inl refl
  judge-Verified now body (some t) (some n) none seen = inl refl
  judge-Verified now body (some t) (some n) (some sig) seen =
      elim (Bool-cases (passes hexdigest int now secret body t n sig seen)) [
        | inl e ↦
            inr (n, (refl, (passes-fresh now body t n sig seen e, rw (e, if◌then◌else◌) refl)))
        | inr e ↦ inl (rw (e, if◌then◌else◌) refl)
      ]

  -- The head of a run, and what follows.
  step_of : String → Option String → SignedCalls → Bool × List String → ℕ
  step_of n named calls result =
      (if result.0 && opt_eq named (some n) then 1 else 0) + accepted n calls result.1

  remember-kept :
      (m : String) (seen : List String)
      → suc (length seen) ≤ max_nonces
      → remember m seen ≡ m ∷ seen
  unfolding remember
  remember-kept m seen few = rw (le→ltb max_nonces (suc (length seen)) few, if◌then◌else◌) refl

  distinct :
      (n m : String) (seen : List String)
      → any (str_eq n) seen ≡ true
      → any (str_eq m) seen ≡ false
      → str_eq m n ≡ false
  distinct n m seen there fresh = elim (Bool-cases (str_eq m n)) [
    | inl e ↦
        let same = (str_eq_iff m n).0 e in
        absurd (ground (arith, there, subst (λ x. any (str_eq x) seen ≡ false) same fresh))
    | inr e ↦ e
  ]

  -- what follows an accepted nonce that is new
  step-new :
      (n m : String) (named : Option String) (calls : SignedCalls) (seen : List String)
      → named ≡ some m
      → suc (length seen) ≤ max_nonces
      → step_of n named calls (true, remember m seen)
        ≡ (if str_eq m n then 1 else 0) + accepted n calls (m ∷ seen)
  unfolding step_of opt_eq
  step-new n m named calls seen is_m few = rw (is_m, remember-kept m seen few) refl

  step-none :
      (n : String) (named : Option String) (calls : SignedCalls) (seen : List String)
      (result : Bool × List String)
      → Verified named seen result
      → any (str_eq n) seen ≡ true
      → length seen + suc (length calls) ≤ max_nonces
      → ((later : List String)
          → any (str_eq n) later ≡ true
          → length later + length calls ≤ max_nonces
          → accepted n calls later ≡ 0)
      → step_of n named calls result ≡ 0
  unfolding Verified step_of any
  step-none n named calls seen result (inl e) there few later =
      let rest = later seen there (omega (arith, few)) in
      ap (step_of n named calls) e ∙ omega (arith, rest)
  step-none n named calls seen result (inr (m, (is_m, (fresh, e)))) there few later =
      let rest = later (m ∷ seen) (ground (arith, there)) (omega (arith, few)) in
      ap (step_of n named calls) e
      ∙ (step-new n m named calls seen is_m (omega (arith, few))
          ∙ rw (distinct n m seen there fresh, if◌then◌else◌) (omega (arith, rest)))

  kept-none :
      (n : String) (calls : SignedCalls) (seen : List String)
      → any (str_eq n) seen ≡ true
      → length seen + length calls ≤ max_nonces
      → accepted n calls seen ≡ 0
  unfolding accepted step_of verify_signature nonce_of
  kept-none n [] seen h few = refl
  kept-none n ((now, (body, header)) ∷ calls) seen h few =
      step-none n (nonce_of header) calls seen
        (verify_signature hexdigest int now secret body header seen)
        (judge-Verified now body _ _ _ seen) h few (kept-none n calls)

  step-once :
      (n : String) (named : Option String) (calls : SignedCalls) (seen : List String)
      (result : Bool × List String)
      → Verified named seen result
      → length seen + suc (length calls) ≤ max_nonces
      → ((later : List String)
          → length later + length calls ≤ max_nonces
          → accepted n calls later ≤ 1)
      → step_of n named calls result ≤ 1
  unfolding Verified step_of any
  step-once n named calls seen result (inl e) few later =
      subst (λ x. step_of n named calls x ≤ 1) (sym e)
        (let rest = later seen (omega (arith, few)) in omega (arith, rest))
  step-once n named calls seen result (inr (m, (is_m, (fresh, e)))) few later =
      let new = step-new n m named calls seen is_m (omega (arith, few)) in
      subst (λ x. step_of n named calls x ≤ 1) (sym e)
        (subst (λ k. k ≤ 1) (sym new)
          (elim (Bool-cases (str_eq m n)) [
            | inl same ↦
                let there : any (str_eq n) (m ∷ seen) ≡ true =
                  ground (arith, str_eq_iff m n, str_eq_iff n m, same) in
                let none_left = kept-none n calls (m ∷ seen) there (omega (arith, few)) in
                rw (same, if◌then◌else◌) (omega (arith, none_left))
            | inr other ↦
                let rest = later (m ∷ seen) (omega (arith, few)) in
                rw (other, if◌then◌else◌) (omega (arith, rest))
          ]))

  -- While the nonces that were seen and the calls together are ten thousand at most, a run accepts a nonce once at
  -- most.
  pub accepted-once :
      (n : String) (calls : SignedCalls) (seen : List String)
      → length seen + length calls ≤ max_nonces
      → accepted n calls seen ≤ 1
  unfolding accepted step_of verify_signature nonce_of
  accepted-once n [] seen few = omega arith
  accepted-once n ((now, (body, header)) ∷ calls) seen few =
      step-once n (nonce_of header) calls seen
        (verify_signature hexdigest int now secret body header seen)
        (judge-Verified now body _ _ _ seen) few (accepted-once n calls)
