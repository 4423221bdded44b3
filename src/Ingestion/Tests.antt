-- ===== src/Ingestion/Tests.antt =====
-- One submitted log at an installation with one rule.
use aegisiq.Detection.Dedup.Unique.{AtMostOneOpen}
use aegisiq.Detection.Rules.{Library}
use aegisiq.Ingestion.Answers.{Reports, ingest_log-Reports}
use aegisiq.Ingestion.Histories.{Arrival, ingest_all, ingest_all-IsSafe}
use aegisiq.Ingestion.Normalizer.{Submission}
use aegisiq.Ingestion.Regex.{Regex}
use aegisiq.Ingestion.Service.{World, State, Response, accepted, ingest_log}
use aegisiq.Models.Alert.{DetectionRule}
use aegisiq.Models.Json.{obj, Fields, end}
use aegisiq.Models.Log.{Severity}
use aegisiq.Soar.Guard.{IpLibrary, Settings}
use aegisiq.Soar.Guarded.{IsSafe}
use aegisiq.LogStore.{LogStore}
use aegisiq.Prelude.{
  ℕ, ◌+◌, ◌≡◌, refl, true, false, Option, none, some, List, [], ◌∷◌, str_eq, opt_eq, length,
  where_rows, any, count_if, All,
}

abbrev no_patterns : Regex
no_patterns = record {
  search = λ pattern s. none;
  findall = λ pattern s. [];
  search_ignoring_case = λ pattern s. none;
}

abbrev no_library : Library
no_library = record {
  regex_found = λ pattern s. false;
  raw_user_agent = λ s. none;
  unquote_plus = λ s. s;
}

abbrev no_addresses : IpLibrary
no_addresses = record {
  ip_address = λ s. none;
  is_loopback = λ s. false;
  is_link_local = λ s. false;
  is_multicast = λ s. false;
  is_reserved = λ s. false;
  is_unspecified = λ s. false;
  is_private = λ s. false;
}

abbrev settings : Settings
settings = record {
  soar_enabled = true;
  soar_execute = true;
  soar_order_ttl_seconds = 600;
  soar_block_private_ranges = false;
  soar_protected_accounts = "";
  cors_origins_list = [];
}

abbrev world : World
world = record {
  re = no_patterns;
  dumps = λ s. "{}";
  library = no_library;
  ips = no_addresses;
  settings = settings;
  external = none;
  new_log_id = λ logs. length logs + 1;
  new_alert_id = λ alerts. length alerts + 1;
  new_action_id = λ actions. length actions + 1;
  token = λ db. "token";
  coerce = λ v. none;
}

abbrev guessing : DetectionRule
guessing = record {
  id = 7;
  name = "Brute force";
  rule_type = "brute_force";
  threshold = 1;
  time_window_seconds = 60;
  severity = Severity.high;
  mitre_id = none;
  kill_chain_phase = none;
  parameters = obj end;
  enabled = true;
}

abbrev tables : State
tables = record {
  agents = [];
  logs = [];
  rules = guessing ∷ [];
  alerts = [];
  soar = record { agents = []; actions = []; orders = [] };
}

abbrev failed_logon : Option ℕ → Option Fields → Submission
failed_logon timestamp metadata = record {
  timestamp = timestamp;
  hostname = none;
  source_ip = some "203.0.113.5";
  destination_ip = none;
  source_port = none;
  destination_port = none;
  username = some "root";
  event_type = some "authentication_failure";
  severity = none;
  source = none;
  operating_system = none;
  event_id = none;
  raw_log = none;
  metadata = metadata;
}

abbrev arrivals : List Arrival
arrivals =
    record { now = 5; agent_id = none; submission = failed_logon (some 4) none }
    ∷ record { now = 9; agent_id = none; submission = failed_logon (some 8) none }
    ∷ []

ingest_all-IsSafe_example :
    AtMostOneOpen (ingest_all world arrivals tables).alerts
    × All
        (λ o. IsSafe no_addresses settings o.action o.target)
        (ingest_all world arrivals tables).soar.orders
ingest_all-IsSafe_example = ingest_all-IsSafe world arrivals tables refl refl

-- what becomes of one failed logon
abbrev answered : Response × State
answered = elim (ingest_log world 5 none (failed_logon (some 4) none) tables) [
  | accepted r s ↦ (r, s)
  | _ ↦ (record { id = none; external_id = none; event_type = ""; alert_ids = [] }, tables)
]

is_accepted :
    ingest_log world 5 none (failed_logon (some 4) none) tables ≡ accepted answered.0 answered.1
unfolding ingest_log
is_accepted = refl

ingest_log-Reports_example : Reports tables answered.0 answered.1
ingest_log-Reports_example =
    ingest_log-Reports world 5 none (failed_logon (some 4) none) tables answered.1 answered.0 refl
      is_accepted

-- The one failed logon is a row, and raises alert 1.
alert_ids_lem : answered.0.alert_ids ≡ 1 ∷ []
unfolding ingest_log aegisiq.Detection.Engine.run_rules aegisiq.Prelude.where_rows
    aegisiq.Detection.Engine.prepend_id aegisiq.Detection.Engine.run_rule
    aegisiq.Detection.Engine.implemented str_eq aegisiq.Detection.Engine.handler
    aegisiq.Detection.Rules.brute_force aegisiq.Detection.Rules.window_rule
    aegisiq.LogStore.Relational.sqlalchemy_store aegisiq.Prelude.count_if
    aegisiq.LogStore.Relational.is_event aegisiq.Prelude.opt_eq
    aegisiq.Detection.Alerting.alert_unless_active aegisiq.Detection.Alerting.has_active_alert
    aegisiq.Prelude.any aegisiq.Detection.Alerting.new_alert
alert_ids_lem = refl
