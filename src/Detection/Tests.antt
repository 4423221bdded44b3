-- ===== src/Detection/Tests.antt =====
-- Runs of the detection rules on one small network: two failed logons from one address.
use aegisiq.Detection.Added.{Added, evaluate-Added}
use aegisiq.Detection.Alerting.{Alerts, new_alert, alert_unless_active, has_active_alert}
use aegisiq.Detection.Cooldown.{Fires, brute_force_iff}
use aegisiq.Detection.Dedup.Unique.{AtMostOneOpen, open_for}
use aegisiq.Detection.Engine.{evaluate}
use aegisiq.Detection.Rules.{Library, brute_force, window_rule}
use aegisiq.LogStore.{LogStore}
use aegisiq.LogStore.Relational.{sqlalchemy_store, is_event}
use aegisiq.Models.Alert.{Alert, DetectionRule, Description}
use aegisiq.Models.Json.{Json, end}
use aegisiq.Models.Log.{Log, Severity}
use aegisiq.Prelude.{
  ℕ, ◌+◌, ◌*◌, String, ◌≡◌, refl, ◌↔◌, true, false, none, some, List, [], ◌∷◌, arith, str_eq,
  opt_eq, is_some, length, where_rows, any, count_if,
}

abbrev event : String → ℕ → ℕ → Log
event kind at port = record {
  id = some at;
  timestamp = at * 1_000_000;
  hostname = none;
  source_ip = some "10.0.0.9";
  destination_ip = none;
  source_port = none;
  destination_port = some port;
  username = some "root";
  event_type = kind;
  severity = Severity.low;
  raw_log = "";
  normalized_data = Json.obj end;
  source = "api";
  operating_system = none;
  event_id = none;
  agent_id = none;
}

abbrev failed : ℕ → Log
failed at = event "authentication_failure" at 22

abbrev guessing : DetectionRule
guessing = record {
  id = 7;
  name = "Brute force";
  rule_type = "brute_force";
  threshold = 2;
  time_window_seconds = 60;
  severity = Severity.high;
  mitre_id = none;
  kill_chain_phase = none;
  parameters = Json.obj end;
  enabled = true;
}

abbrev rows : List Log
rows = failed 101 ∷ failed 100 ∷ []

abbrev no_library : Library
no_library = record {
  regex_found = λ pattern s. false;
  raw_user_agent = λ s. none;
  unquote_plus = λ s. s;
}

abbrev next_id : Alerts → ℕ
next_id alerts = 1 + length alerts

abbrev store : LogStore
store = sqlalchemy_store rows

abbrev first_alert : Alert
first_alert = new_alert 1 guessing (failed 101) (Description.brute_force "10.0.0.9" 2 60) none

none_is_open : AtMostOneOpen []
unfolding count_if
none_is_open rule_id key = omega arith

evaluate-Added_example :
    Added
      (failed 101)
      (where_rows (λ rule. rule.enabled) (guessing ∷ []))
      (evaluate no_library next_id (failed 101) store (guessing ∷ []) [])
      []
evaluate-Added_example = evaluate-Added no_library next_id (failed 101) store (guessing ∷ []) []

brute_force_iff_example :
    (is_some (brute_force next_id (failed 101) guessing (sqlalchemy_store rows) []).0 ≡ true)
    ↔ Fires (failed 101) guessing rows []
brute_force_iff_example = brute_force_iff next_id (failed 101) guessing rows []

first_alert_is_open : any (open_for 7 "10.0.0.9") (first_alert ∷ []) ≡ true
unfolding any open_for new_alert str_eq opt_eq
first_alert_is_open = refl

first_alert_is_raised :
    brute_force next_id (failed 101) guessing store [] ≡ (some first_alert, first_alert ∷ [])
unfolding brute_force window_rule alert_unless_active has_active_alert sqlalchemy_store is_event
    str_eq opt_eq count_if any
first_alert_is_raised = refl
