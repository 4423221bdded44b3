-- ===== src/Models/Alert.antt =====
-- backend/app/models/alert.py and rule.py. `created_at`, which no operation reads, is left out.
use aegisiq.Models.Json.{Json}
use aegisiq.Models.Log.{Severity}
use aegisiq.Prelude.{ℕ, String, Bool, true, false, Option}

pub data AlertStatus : Type 0 where
  new investigating resolved false_positive : AlertStatus

-- `status in [NEW, INVESTIGATING]`
abbrev pub is_open : AlertStatus → Bool
is_open new = true
is_open investigating = true
is_open _ = false

pub record DetectionRule : Type 0 where
  pub id : ℕ
  pub name : String
  pub rule_type : String
  pub threshold : ℕ
  pub time_window_seconds : ℕ
  pub severity : Severity
  pub mitre_id : Option String
  pub kill_chain_phase : Option String
  pub parameters : Json
  pub enabled : Bool

-- The text of an alert, as the rule's f-string and the values that it prints.
pub data Description : Type 0 where
  brute_force : String → ℕ → ℕ → Description
  port_scan : String → ℕ → ℕ → Description
  credential_stuffing : String → ℕ → ℕ → Description
  login_after_failure : String → String → ℕ → ℕ → Description
  file_changed : String → ℕ → ℕ → String → Option String → Description
  privilege_escalation : String → Option String → String → Option String → Description
  user_agent : String → String → String → Description
  web_attack : String → String → Option String → Description

pub record Alert : Type 0 where
  pub id : ℕ
  pub timestamp : ℕ
  pub severity : Severity
  pub source_ip : Option String
  pub destination_ip : Option String
  pub rule_id : ℕ
  pub mitre_id : Option String
  pub kill_chain_phase : Option String
  pub description : Description
  pub status : AlertStatus
  pub dedup_key : Option String
  pub log_id : Option ℕ
  pub incident_id : Option ℕ

pub record AlertStatusHistory : Type 0 where
  pub alert_id : ℕ
  pub previous_status : Option AlertStatus
  pub new_status : AlertStatus
  pub changed_by : Option ℕ
