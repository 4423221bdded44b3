-- ===== src/Detection/Alerting.antt =====
-- backend/app/detection/alerting.py over the table of alerts, newest first. The database chooses
-- the key of a new row: `new_id` is a parameter.
use aegisiq.Models.Alert.{Alert, DetectionRule, Description, is_open, new}
use aegisiq.Models.Log.{Log, seconds}
use aegisiq.Prelude.{
  ℕ, ◌-◌, String, Bool, ◌&&◌, ◌||◌, Option, none, some, List, ◌∷◌, leb, ◌==◌, if◌then◌else◌, opt_eq,
  any,
}

abbrev pub Alerts : Type 0
Alerts = List Alert

-- the filter of `has_active_alert`
unfoldable pub is_active_for : ℕ → String → ℕ → Alert → Bool
is_active_for rule_id dedup_key window_start a =
    a.rule_id == rule_id
    && (opt_eq a.dedup_key (some dedup_key) && (is_open a.status || leb window_start a.timestamp))

unfoldable pub has_active_alert : ℕ → String → ℕ → Alerts → Bool
has_active_alert rule_id dedup_key window_start alerts =
    any (is_active_for rule_id dedup_key window_start) alerts

-- `dedup_key if dedup_key is not None else log.source_ip`
unfoldable pub key_or_source : Option String → Log → Option String
key_or_source none log = log.source_ip
key_or_source (some k) log = some k

unfoldable pub new_alert : ℕ → DetectionRule → Log → Description → Option String → Alert
unfolding key_or_source
new_alert id rule log description dedup_key = record {
  id = id;
  timestamp = log.timestamp;
  severity = rule.severity;
  source_ip = log.source_ip;
  destination_ip = log.destination_ip;
  rule_id = rule.id;
  mitre_id = rule.mitre_id;
  kill_chain_phase = rule.kill_chain_phase;
  description = description;
  status = new;
  dedup_key = key_or_source dedup_key log;
  log_id = log.id;
  incident_id = none;
}

-- A handler returns the alert that it created, if any, and the table.
abbrev pub Verdict : Type 0
Verdict = Option Alert × Alerts

module _ (new_id : Alerts → ℕ) where
  unfoldable pub create_alert : DetectionRule → Log → Description → Option String → Alerts → Verdict
  create_alert rule log description dedup_key alerts =
      let alert = new_alert (new_id alerts) rule log description dedup_key in
      (some alert, alert ∷ alerts)

  -- the end of every handler: return None if `has_active_alert`, else `create_alert`
  unfoldable pub alert_unless_active :
      DetectionRule → Log → String → ℕ → Description → Option String → Alerts → Verdict
  unfolding create_alert
  alert_unless_active rule log key window_start description dedup_key alerts =
      if has_active_alert rule.id key window_start alerts
      then (none, alerts)
      else create_alert rule log description dedup_key alerts

-- `log.timestamp - timedelta(seconds=rule.time_window_seconds)`; an instant before the epoch
-- counts as the epoch
abbrev pub window_start : DetectionRule → Log → ℕ
window_start rule log = log.timestamp - seconds rule.time_window_seconds

-- `log.source_ip` once it is known to be there
abbrev pub address : Log → String
address log = elim log.source_ip [ none ↦ "" | some ip ↦ ip ]
