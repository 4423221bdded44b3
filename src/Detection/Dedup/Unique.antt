-- ===== src/Detection/Dedup/Unique.antt =====
-- At most one open alert for each rule and key.
use aegisiq.Detection.Alerting.{
  Alerts, Verdict, is_active_for, has_active_alert, create_alert, window_start, new_alert,
}
use aegisiq.Detection.Dedup.Outcome.{Outcome, quiet, raised, run_rule-Outcome}
use aegisiq.Detection.Engine.{run_rule, run_rules, evaluate}
use aegisiq.Detection.Rules.{Library}
use aegisiq.LogStore.{LogStore}
use aegisiq.Models.Alert.{Alert, DetectionRule, Description, is_open}
use aegisiq.Models.Log.{Log}
use aegisiq.Prelude.{
  ℕ, ◌≤◌, String, ◌≡◌, refl, inl, inr, Bool, true, false, ◌&&◌, Option, some, List, [], ◌∷◌, arith,
  ◌==◌, str_eq_iff, opt_eq, opt_eq_iff, Bool-cases, where_rows, any, count_if, count_if-cons,
}

unfoldable pub open_for : ℕ → String → Alert → Bool
open_for rule_id key a = a.rule_id == rule_id && (opt_eq a.dedup_key (some key) && is_open a.status)

abbrev pub AtMostOneOpen : Alerts → Type 0
AtMostOneOpen alerts = (rule_id : ℕ) (key : String) → count_if (open_for rule_id key) alerts ≤ 1

none_open :
    (r : ℕ) (k : String) (w : ℕ) (alerts : Alerts)
    → has_active_alert r k w alerts ≡ false
    → count_if (open_for r k) alerts ≡ 0
unfolding has_active_alert is_active_for open_for any count_if
none_open r k w [] h = refl
none_open r k w (a ∷ alerts) h = ground (arith, none_open r k w alerts)

module _ (new_id : Alerts → ℕ) (log : Log) (rule : DetectionRule) (alerts : Alerts) where
  -- an open alert made for `key` is open for no other rule or key
  open_for-new_alert :
      (key : String) (d : Description) (k : Option String) (r : ℕ) (k' : String)
      → (new_alert (new_id alerts) rule log d k).dedup_key ≡ some key
      → open_for r k' (new_alert (new_id alerts) rule log d k) ≡ true
      → (rule.id ≡ r) × (key ≡ k')
  unfolding open_for new_alert
  open_for-new_alert key d k r k' e h =
      let same = opt_eq_iff (some key) (some k') in ground (arith, e, h, same, str_eq_iff key k')

  create-AtMostOneOpen :
      (key : String) (d : Description) (k : Option String)
      → has_active_alert rule.id key (window_start rule log) alerts ≡ false
      → (new_alert (new_id alerts) rule log d k).dedup_key ≡ some key
      → AtMostOneOpen alerts
      → AtMostOneOpen (create_alert new_id rule log d k alerts).1
  unfolding create_alert
  create-AtMostOneOpen key d k idle e one r k' =
      elim (Bool-cases (open_for r k' (new_alert (new_id alerts) rule log d k))) [
        | inl counted ↦
            let (same_rule, same_key) = open_for-new_alert key d k r k' e counted in
            let empty = none_open rule.id key (window_start rule log) alerts idle in
            rw (count_if-cons, counted, ← same_rule, ← same_key, empty) (omega arith)
        | inr other ↦ rw (count_if-cons, other) (omega (arith, one r k'))
      ]

  Outcome-AtMostOneOpen :
      {v : Verdict} → Outcome new_id log rule alerts v → AtMostOneOpen alerts → AtMostOneOpen v.1
  Outcome-AtMostOneOpen (quiet e) one = rw e one
  Outcome-AtMostOneOpen (raised key d k idle e made) one =
      rw made (create-AtMostOneOpen key d k idle e one)

module _ (lib : Library) (new_id : Alerts → ℕ) (log : Log) (store : LogStore) where
  run_rules-AtMostOneOpen :
      (rules : List DetectionRule) (alerts : Alerts)
      → AtMostOneOpen alerts
      → AtMostOneOpen (run_rules lib new_id log store rules alerts).1
  unfolding run_rules
  run_rules-AtMostOneOpen [] alerts one = one
  run_rules-AtMostOneOpen (rule ∷ rules) alerts one =
      run_rules-AtMostOneOpen rules (run_rule lib new_id log store rule alerts).1 (
        Outcome-AtMostOneOpen new_id log rule alerts
          (run_rule-Outcome lib new_id log rule store alerts) one)

  -- If the table has at most one open alert for each rule and key, it still has after the engine
  -- has evaluated a log, whatever the rules and the event store.
  pub evaluate-AtMostOneOpen :
      (rules : List DetectionRule) (alerts : Alerts)
      → AtMostOneOpen alerts
      → AtMostOneOpen (evaluate lib new_id log store rules alerts).1
  unfolding evaluate
  evaluate-AtMostOneOpen rules = run_rules-AtMostOneOpen (where_rows (λ rule. rule.enabled) rules)
