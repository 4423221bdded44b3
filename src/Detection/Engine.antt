-- ===== src/Detection/Engine.antt =====
-- backend/app/detection/engine.py
use aegisiq.Detection.Alerting.{Alerts, Verdict}
use aegisiq.Detection.Rules
use aegisiq.Detection.Rules.{Library}
use aegisiq.LogStore.{LogStore}
use aegisiq.Models.Alert.{Alert, DetectionRule}
use aegisiq.Models.Log.{Log}
use aegisiq.Prelude.{
  ℕ, String, Option, none, some, List, [], ◌∷◌, if◌then◌else◌, str_eq, where_rows,
}

abbrev pub Handler : Type 0
Handler = Log → DetectionRule → LogStore → Alerts → Verdict

-- The keys of `_RULE_HANDLERS`.
pub data RuleType : Type 0 where
  brute_force port_scan login_after_failure file_integrity privilege_escalation web_attack
        credential_stuffing suspicious_user_agent :
      RuleType

abbrev pub rule_types : List (String × RuleType)
rule_types =
    ("brute_force", RuleType.brute_force)
    ∷ ("port_scan", RuleType.port_scan)
    ∷ ("login_after_failure", RuleType.login_after_failure)
    ∷ ("file_integrity", RuleType.file_integrity)
    ∷ ("privilege_escalation", RuleType.privilege_escalation)
    ∷ ("web_attack", RuleType.web_attack)
    ∷ ("credential_stuffing", RuleType.credential_stuffing)
    ∷ ("suspicious_user_agent", RuleType.suspicious_user_agent)
    ∷ []

-- `_RULE_HANDLERS.get(rule.rule_type)`
unfoldable pub implemented : String → List (String × RuleType) → Option RuleType
implemented name [] = none
implemented name ((key, t) ∷ rest) =
    let later = implemented name rest in if str_eq key name then some t else later

-- `alert_ids.append(alert.id)` if the handler created one
unfoldable pub prepend_id : Option Alert → List ℕ → List ℕ
prepend_id none ids = ids
prepend_id (some a) ids = a.id ∷ ids

module _ (lib : Library) (new_id : Alerts → ℕ) where
  unfoldable pub handler : RuleType → Handler
  handler RuleType.brute_force = Rules.brute_force new_id
  handler RuleType.port_scan = Rules.port_scan new_id
  handler RuleType.login_after_failure = Rules.login_after_failure new_id
  handler RuleType.file_integrity = Rules.file_integrity new_id
  handler RuleType.privilege_escalation = Rules.privilege_escalation new_id
  handler RuleType.web_attack = Rules.web_attack lib new_id
  handler RuleType.credential_stuffing = Rules.credential_stuffing new_id
  handler RuleType.suspicious_user_agent = Rules.suspicious_user_agent lib new_id

  -- one turn of the loop of `evaluate`, for an enabled rule
  unfoldable pub run_rule : Log → LogStore → DetectionRule → Alerts → Verdict
  run_rule log store rule alerts = elim (implemented rule.rule_type rule_types) [
    | none ↦ (none, alerts)
    | some t ↦ handler t log rule store alerts
  ]

  -- the loop of `evaluate` over the enabled rules: the ids of the alerts created, and the table
  unfoldable pub run_rules : Log → LogStore → List DetectionRule → Alerts → List ℕ × Alerts
  run_rules log store [] alerts = ([], alerts)
  run_rules log store (rule ∷ rules) alerts =
      let (created, alerts') = run_rule log store rule alerts in
      let (ids, alerts'') = run_rules log store rules alerts' in (prepend_id created ids, alerts'')

  unfoldable pub evaluate : Log → LogStore → List DetectionRule → Alerts → List ℕ × Alerts
  evaluate log store rules alerts =
      run_rules log store (where_rows (λ rule. rule.enabled) rules) alerts
