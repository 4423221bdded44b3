-- ===== src/Models/Log.antt =====
-- backend/app/models/log.py. Instants are microseconds since the epoch.
use aegisiq.Models.Json.{Json}
use aegisiq.Prelude.{ℕ, ◌*◌, String, Bool, true, false, Option}

pub data Severity : Type 0 where
  low medium high critical : Severity

pub record Log : Type 0 where
  pub id : Option ℕ
  pub timestamp : ℕ
  pub hostname : Option String
  pub source_ip : Option String
  pub destination_ip : Option String
  pub source_port : Option ℕ
  pub destination_port : Option ℕ
  pub username : Option String
  pub event_type : String
  pub severity : Severity
  pub raw_log : String
  pub normalized_data : Json
  pub source : String
  pub operating_system : Option String
  pub event_id : Option ℕ
  pub agent_id : Option ℕ

-- `timedelta(seconds=n)`
abbrev pub seconds : ℕ → ℕ
seconds n = n * 1_000_000

-- `alert.severity in _MIN_SEVERITY_FOR_CONTAINMENT` of soar/engine.py
abbrev pub warrants_containment : Severity → Bool
warrants_containment high = true
warrants_containment critical = true
warrants_containment _ = false
