-- ===== src/Analysis/Correlate.antt =====
-- `_detect_correlations` of backend/app/analysis/engine.py: failures and successes of one account.
use aegisiq.Analysis.Batch.{is_failure}
use aegisiq.Analysis.Events.{Event, Finding, samples, sample_lines, correlated}
use aegisiq.Analysis.Groups.{Groups, collect, group, indexes_at}
use aegisiq.Models.Json.{get, is_true}
use aegisiq.Models.Log.{Severity, medium, high}
use aegisiq.Prelude.{
  ℕ, String, Bool, true, false, not, ◌&&◌, Option, none, some, List, [], ◌∷◌, ◌++◌, ltb, leb,
  if◌then◌else◌, str_eq, strip, length, take, where_rows,
}

-- `_acct`; the empty text stands for None
unfoldable pub account : Event → String
account e = elim e.username [ none ↦ "" | some u ↦ strip u ]

-- `_is_service`
unfoldable pub is_service_account : Event → Bool
is_service_account e = elim (get "is_service_account" e.normalized_data) [
  | none ↦ false
  | some v ↦ is_true v
]

abbrev pub is_success : Event → Bool
is_success e = str_eq e.event_type "authentication_success"

-- an event of a real user's account
unfoldable pub is_user : Event → Bool
unfolding account is_service_account
is_user e = not (str_eq (account e) "") && not (is_service_account e)

module _ (events : List Event) where
  unfoldable pub fails : Groups String
  unfolding is_user account
  fails = group str_eq (λ e. if is_user e && is_failure e then account e ∷ [] else []) 0 events []

  -- an event is no failure if it is a success
  unfoldable pub succs : Groups String
  unfolding is_user account
  succs = group str_eq (λ e. if is_user e && is_success e then account e ∷ [] else []) 0 events []

  -- `later_success`
  unfoldable pub later_success : String → List ℕ → List ℕ
  unfolding succs
  later_success name [] = []
  later_success name (first_fail ∷ indexes) =
      where_rows (λ i. ltb first_fail i) (indexes_at str_eq name succs)

  unfoldable pub correlated_finding :
      String → String → Severity → String → List ℕ → List ℕ → Bool → Finding
  correlated_finding rule rule_type severity name failures indexes succeeded = record {
    rule = rule;
    rule_type = rule_type;
    mitre = some "T1110";
    kill_chain = some "Credential Access";
    severity = severity;
    source = name;
    count = length failures;
    first_seen = none;
    last_seen = none;
    sample_events = samples events indexes;
    sample_indexes = take sample_lines indexes;
    extra = correlated name (length failures) succeeded;
  }

  unfoldable pub correlation_group : String × List ℕ → Option Finding
  unfolding later_success correlated_finding
  correlation_group (name, failures) =
      if ltb (length failures) 5 then none else elim (later_success name failures) [
        | [] ↦ some (
            correlated_finding "Correlated: repeated failed logons for one account"
              "brute_force_attempt" (if leb 20 (length failures) then high else medium) name
              failures failures false)
        | success ∷ more ↦ some (
            correlated_finding "Correlated: failed logons followed by a successful logon"
              "credential_compromise_pattern" high name failures (failures ++ (success ∷ [])) true)
      ]

  unfoldable pub detect_correlations : List Finding
  unfolding fails correlation_group
  detect_correlations = collect correlation_group fails
