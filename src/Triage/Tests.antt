-- ===== src/Triage/Tests.antt =====
-- A desk with one alert, triaged and deleted.
use aegisiq.Models.Alert.{Alert, AlertStatus, Description}
use aegisiq.Models.Log.{Severity}
use aegisiq.Triage.Routes.{Desk, find_alert}
use aegisiq.Triage.Trail.{Call, updating, IsTrailed, run_calls, trail, triage-IsTrailed}
use aegisiq.Prelude.{◌≡◌, refl, none, some, List, [], ◌∷◌, length, where_rows, first}

abbrev scan : Alert
scan = record {
  id = 1;
  timestamp = 1;
  severity = Severity.high;
  source_ip = some "203.0.113.5";
  destination_ip = none;
  rule_id = 7;
  mitre_id = none;
  kill_chain_phase = none;
  description = Description.port_scan "203.0.113.5" 9 60;
  status = AlertStatus.new;
  dedup_key = some "203.0.113.5";
  log_id = none;
  incident_id = none;
}

abbrev desk : Desk
desk = record { alerts = scan ∷ []; history = []; actions = []; orders = [] }

abbrev calls : List Call
calls =
    updating 1 AlertStatus.investigating 4
    ∷ updating 1 AlertStatus.investigating 4
    ∷ updating 1 AlertStatus.resolved 5
    ∷ []

triage-IsTrailed_example : IsTrailed desk (run_calls calls desk)
triage-IsTrailed_example = triage-IsTrailed calls desk refl

-- The second call changes nothing: the trail has two rows.
two_changes : length (trail 1 (run_calls calls desk).history) ≡ 2
unfolding trail aegisiq.Prelude.where_rows run_calls aegisiq.Prelude.first
two_changes = refl

is_there : find_alert 1 desk.alerts ≡ some scan
unfolding find_alert aegisiq.Prelude.first
is_there = refl
