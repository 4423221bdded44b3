-- ===== src/Detection/Added.antt =====
-- What a run of backend/app/detection/engine.py adds to the table of alerts.
use aegisiq.Detection.Alerting.{Alerts, Verdict, create_alert, new_alert}
use aegisiq.Detection.Dedup.Outcome.{Outcome, quiet, raised, run_rule-Outcome}
use aegisiq.Detection.Engine.{prepend_id, run_rules, evaluate}
use aegisiq.Detection.Rules.{Library}
use aegisiq.LogStore.{LogStore}
use aegisiq.Models.Alert.{Alert, DetectionRule, Description, AlertStatus}
use aegisiq.Models.Log.{Log}
use mathlib.Core.List.{reverse, reverse-append, map-append, append_assoc}
use aegisiq.Prelude.{
  ℕ, String, ◌≡◌, refl, sym, ◌∙◌, true, Option, List, [], ◌∷◌, ◌++◌, map, arith, ◌==◌, where_rows,
  any, All, All-append, All-map,
}

-- What an alert that the engine adds for a log looks like: new, of the log, and of an enabled rule.
pub record IsFresh (log : Log) (rules : List DetectionRule) (a : Alert) : Type 0 where
  pub status : a.status ≡ AlertStatus.new
  pub timestamp : a.timestamp ≡ log.timestamp
  pub log_id : a.log_id ≡ log.id
  pub rule : any (λ r. r.id == a.rule_id) rules ≡ true

IsFresh-more :
    (log : Log) (rule : DetectionRule) (rules : List DetectionRule) (a : Alert)
    → IsFresh log rules a
    → IsFresh log (rule ∷ rules) a
unfolding any
IsFresh-more log rule rules a h = record {
  status = h.status;
  timestamp = h.timestamp;
  log_id = h.log_id;
  rule = ground (arith, h.rule);
}

-- The alerts that a run adds, newest first, and the ids that it returns, oldest first.
abbrev pub Added : Log → List DetectionRule → List ℕ × Alerts → Alerts → Type 0
Added log rules result alerts =
    (added : Alerts) × (result.1 ≡ added ++ alerts)
    × (result.0 ≡ reverse (map (λ a. a.id) added))
    × All (IsFresh log rules) added

module _ (lib : Library) (new_id : Alerts → ℕ) (log : Log) (store : LogStore) where
  rules_below :
      (rule : DetectionRule) (rules : List DetectionRule) (added : Alerts)
      → All (IsFresh log rules) added
      → All (IsFresh log (rule ∷ rules)) added
  rules_below rule rules =
      All-map (IsFresh log rules) (IsFresh log (rule ∷ rules)) (IsFresh-more log rule rules)

  ids-snoc :
      (a : Alert) (added : Alerts)
      → reverse (map (λ (b : Alert). b.id) (added ++ a ∷ []))
        ≡ a.id ∷ reverse (map (λ (b : Alert). b.id) added)
  ids-snoc a added = rw (map-append, reverse-append) refl

  IsFresh-new_alert :
      (rule : DetectionRule) (rules : List DetectionRule) (id : ℕ) (d : Description)
      (k : Option String)
      → IsFresh log (rule ∷ rules) (new_alert id rule log d k)
  unfolding new_alert any
  IsFresh-new_alert rule rules id d k = record {
    status = refl;
    timestamp = refl;
    log_id = refl;
    rule = ground arith;
  }

  Added-cons :
      (rule : DetectionRule) (rules : List DetectionRule) (alerts : Alerts) {v : Verdict}
      → Outcome new_id log rule alerts v
      → ((table : Alerts) → Added log rules (run_rules lib new_id log store rules table) table)
      → Added log
          (rule ∷ rules)
          (
            prepend_id v.0 (run_rules lib new_id log store rules v.1).0,
            (run_rules lib new_id log store rules v.1).1,
          )
          alerts
  unfolding prepend_id create_alert
  Added-cons rule rules alerts (quiet e) later =
      let (added, table, ids, fresh) = later alerts in
      rw e (added, table, ids, rules_below rule rules added fresh)
  Added-cons rule rules alerts (raised key d k idle made_key made) later =
      let table = (create_alert new_id rule log d k alerts).1 in
      let a = new_alert (new_id alerts) rule log d k in
      let (added, grown, ids, fresh) = later table in
      rw made (
        added ++ a ∷ [],
        grown ∙ sym (append_assoc added (a ∷ []) alerts),
        rw (ids, ids-snoc a added) refl,
        All-append (IsFresh log (rule ∷ rules)) added (a ∷ []) (rules_below rule rules added fresh)
            (IsFresh-new_alert rule rules (new_id alerts) d k, tt),
      )

  run_rules-Added :
      (rules : List DetectionRule) (alerts : Alerts)
      → Added log rules (run_rules lib new_id log store rules alerts) alerts
  unfolding run_rules
  run_rules-Added [] alerts = ([], refl, refl, tt)
  run_rules-Added (rule ∷ rules) alerts =
      Added-cons rule rules alerts (run_rule-Outcome lib new_id log rule store alerts)
        (run_rules-Added rules)

  -- The engine only adds to the table of alerts. Each alert that it adds is new, carries the
  -- instant and the id of the log, and is of a rule that the table enables; and the ids that it
  -- returns are those of the added alerts, in the order of creation.
  pub evaluate-Added :
      (rules : List DetectionRule) (alerts : Alerts)
      → Added log
          (where_rows (λ rule. rule.enabled) rules)
          (evaluate lib new_id log store rules alerts)
          alerts
  unfolding evaluate
  evaluate-Added rules = run_rules-Added (where_rows (λ rule. rule.enabled) rules)
