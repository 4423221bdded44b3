-- ===== src/Analysis/Guessed.antt =====
-- When the file analysis calls an account guessed.
use aegisiq.Analysis.Batch.{is_failure}
use aegisiq.Analysis.Correlate.{
  account, is_user, is_success, fails, succs, later_success, correlated_finding, correlation_group,
  detect_correlations,
}
use aegisiq.Analysis.Events.{Event, Finding}
use aegisiq.Analysis.Groups.{positions, indexes_at}
use aegisiq.Analysis.Grouped.{hit, tally-positions, length-positions, indexes_at-group-positions}
use aegisiq.Prelude.{
  ℕ, suc, ◌<◌, String, ◌≡◌, refl, ap, ◌∙◌, inl, inr, Bool, true, false, not, ◌&&◌, none, some, List,
  [], ◌∷◌, arith, ltb, leb, if◌then◌else◌, str_eq, str_eq_iff, str_eq_refl, Bool-cases, length,
  where_rows, any, count_if, All,
}

-- a failed, and a successful, sign-in of an account of a real user
unfoldable pub fails_for : String → Event → Bool
fails_for name e = (is_user e && is_failure e) && str_eq (account e) name

unfoldable pub succeeds_for : String → Event → Bool
succeeds_for name e = (is_user e && is_success e) && str_eq (account e) name

-- Whether a success of an account comes behind its first failure.
unfoldable pub guessed : String → List Event → Bool
guessed name [] = false
guessed name (e ∷ es) =
    let later = guessed name es in if fails_for name e then any (succeeds_for name) es else later

-- A finding of a type on an account.
unfoldable pub on_account : String → String → Finding → Bool
on_account rule_type name f = str_eq f.source name && str_eq f.rule_type rule_type

-- Whether one of the indexes is behind the first of others.
unfoldable pub beyond : List ℕ → List ℕ → Bool
beyond [] indexes = false
beyond (first_fail ∷ more) indexes = any (λ j. ltb first_fail j) indexes

positions-le :
    {E : Type 0}
    → (test : E → Bool) (i k : ℕ) (events : List E) → i < k
    → All (λ j. i < j) (positions test k events)
unfolding positions
positions-le test i k [] h = tt
positions-le test i k (e ∷ es) h = elim (Bool-cases (test e)) [
  | inl t ↦ rw (t, if◌then◌else◌) (h, positions-le test i (suc k) es (omega (arith, h)))
  | inr f ↦ rw (f, if◌then◌else◌) (positions-le test i (suc k) es (omega (arith, h)))
]

any-positions :
    {E : Type 0}
    → (test : E → Bool) (i k : ℕ) (events : List E) → i < k
    → any (λ j. ltb i j) (positions test k events) ≡ any test events
unfolding positions any
any-positions test i k [] h = refl
any-positions test i k (e ∷ es) h =
    ground (arith, h, any-positions test i (suc k) es (omega (arith, h)))

beyond-cons :
    (i : ℕ) (indexes others : List ℕ)
    → All (λ j. i < j) indexes
    → beyond indexes (i ∷ others) ≡ beyond indexes others
unfolding beyond any
beyond-cons i [] others h = refl
beyond-cons i (j ∷ indexes) others h = ground (arith, h.0)

distinct_types : str_eq "authentication_failure" "authentication_success" ≡ false
unfolding str_eq
distinct_types = refl

not_both : (name : String) (e : Event) → fails_for name e ≡ true → succeeds_for name e ≡ false
unfolding fails_for succeeds_for
not_both name e h = ground (
  arith,
  h,
  distinct_types,
  str_eq_iff "authentication_failure" "authentication_success",
  str_eq_iff e.event_type "authentication_failure",
  str_eq_iff e.event_type "authentication_success",
)

beyond-guessed :
    (name : String) (i : ℕ) (events : List Event)
    → beyond (positions (fails_for name) i events) (positions (succeeds_for name) i events)
      ≡ guessed name events
unfolding positions guessed beyond
beyond-guessed name i [] = refl
beyond-guessed name i (e ∷ es) = elim (Bool-cases (fails_for name e)) [
  | inl failed ↦
      rw (failed, not_both name e failed, if◌then◌else◌)
        (any-positions (succeeds_for name) i (suc i) es (omega arith))
  | inr no_failure ↦ elim (Bool-cases (succeeds_for name e)) [
    | inl success ↦
        rw (no_failure, success, if◌then◌else◌)
          (beyond-cons i (positions (fails_for name) (suc i) es)
              (positions (succeeds_for name) (suc i) es)
              (positions-le (fails_for name) i (suc i) es (omega arith))
            ∙ beyond-guessed name (suc i) es)
    | inr neither ↦ rw (no_failure, neither, if◌then◌else◌) (beyond-guessed name (suc i) es)
  ]
]

some_in : List ℕ → Bool
some_in [] = false
some_in (i ∷ indexes) = true

some_in-where_rows :
    (test : ℕ → Bool) (indexes : List ℕ) → some_in (where_rows test indexes) ≡ any test indexes
unfolding some_in where_rows any
some_in-where_rows test [] = refl
some_in-where_rows test (i ∷ indexes) = ground (arith, some_in-where_rows test indexes)

hit_either :
    (p : Finding → Bool) (skip answer : Bool) (alone : Finding) (with_success : ℕ → Finding)
    (successes : List ℕ)
    → ((i : ℕ) → p (with_success i) ≡ answer)
    → hit p (
        if skip
        then none
        else elim successes [ [] ↦ some alone | i ∷ more ↦ some (with_success i) ])
      ≡ (not skip && (if some_in successes then answer else p alone))
unfolding hit some_in
hit_either p true answer alone with_success successes h = refl
hit_either p false answer alone with_success [] h = refl
hit_either p false answer alone with_success (i ∷ more) h = h i

judged :
    (n : ℕ) (success : Bool) (rule_type : String)
    → (leb 1 n
        && (not (ltb n 5)
            && (if success
                then str_eq "credential_compromise_pattern" rule_type
                else str_eq "brute_force_attempt" rule_type)))
      ≡ (leb 5 n
          && str_eq
              (if success then "credential_compromise_pattern" else "brute_force_attempt")
              rule_type)
judged n true rule_type = ground arith
judged n false rule_type = ground arith

compromise_is :
    (success : Bool)
    → str_eq
        (if success then "credential_compromise_pattern" else "brute_force_attempt")
        "credential_compromise_pattern"
      ≡ success
unfolding str_eq
compromise_is true = refl
compromise_is false = refl

attempt_is :
    (success : Bool)
    → str_eq
        (if success then "credential_compromise_pattern" else "brute_force_attempt")
        "brute_force_attempt"
      ≡ not success
unfolding str_eq
attempt_is true = refl
attempt_is false = refl

module _ (events : List Event) (rule_type name : String) where
  group_hit :
      (k : String) (indexes : List ℕ)
      → hit (on_account rule_type name) (correlation_group events (k, indexes)) ≡ (
          not (ltb (length indexes) 5)
          && (if some_in (later_success events k indexes)
              then str_eq k name && str_eq "credential_compromise_pattern" rule_type
              else str_eq k name && str_eq "brute_force_attempt" rule_type))
  unfolding correlation_group correlated_finding on_account
  group_hit k indexes =
      hit_either (on_account rule_type name) _ _ _ _ (later_success events k indexes) (λ i. refl)

  succs-positions : indexes_at str_eq name (succs events) ≡ positions (succeeds_for name) 0 events
  unfolding succs succeeds_for
  succs-positions =
      indexes_at-group-positions str_eq str_eq_iff name (λ e. is_user e && is_success e) account
        events

  later-guessed :
      (indexes : List ℕ)
      → some_in (later_success events name indexes)
        ≡ beyond indexes (positions (succeeds_for name) 0 events)
  unfolding later_success beyond some_in
  later-guessed [] = refl
  later-guessed (i ∷ indexes) =
      some_in-where_rows (λ j. ltb i j) _ ∙ ap (any (λ j. ltb i j)) succs-positions

  tested : count_if (on_account rule_type name) (detect_correlations events) ≡ (
      if leb 5 (count_if (fails_for name) events)
        && str_eq
            (if guessed name events then "credential_compromise_pattern" else "brute_force_attempt")
            rule_type
      then 1
      else 0)
  unfolding detect_correlations fails fails_for
  tested =
      let mine = positions (fails_for name) 0 events in
      tally-positions str_eq str_eq_iff (correlation_group events) (on_account rule_type name) name
        (λ k indexes other. ground (arith, other, group_hit k indexes))
        (λ e. is_user e && is_failure e) account events
      ∙ rw
          (
            group_hit name mine,
            later-guessed mine,
            length-positions (fails_for name) 0 events,
            beyond-guessed name 0 events,
            str_eq_refl name,
          )
          (ap (λ b. if b then 1 else 0)
            (judged (count_if (fails_for name) events) (guessed name events) rule_type))

-- With five failed sign-ins of a real user's account or more, the analysis has one finding on the account: a
-- compromise if a success of the account comes anywhere behind its first failure, an attempt otherwise. With fewer it
-- has neither.
pub detect_correlations-guessed :
    (events : List Event) (name : String)
    → (count_if (on_account "credential_compromise_pattern" name) (detect_correlations events)
        ≡ (if leb 5 (count_if (fails_for name) events) && guessed name events then 1 else 0))
      × (count_if (on_account "brute_force_attempt" name) (detect_correlations events) ≡ (
          if leb 5 (count_if (fails_for name) events) && not (guessed name events) then 1 else 0))
detect_correlations-guessed events name =
    let many = leb 5 (count_if (fails_for name) events) in
    (
      tested events "credential_compromise_pattern" name
          ∙ ap (λ b. if many && b then 1 else 0) (compromise_is (guessed name events)),
      tested events "brute_force_attempt" name
          ∙ ap (λ b. if many && b then 1 else 0) (attempt_is (guessed name events)),
    )
