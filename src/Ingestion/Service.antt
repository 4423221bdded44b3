-- ===== src/Ingestion/Service.antt =====
-- backend/app/ingestion/service.py: what becomes of a submitted log. The broadcasts are left out: they
-- change no table.
use aegisiq.Detection.Alerting.{Alerts}
use aegisiq.Detection.Engine.{evaluate}
use aegisiq.Detection.Rules.{Library}
use aegisiq.Ingestion.Normalizer.{EventTime, NormalizedEvent, Submission, instant, normalize, value}
use aegisiq.Ingestion.Regex.{Regex}
use aegisiq.LogStore.{LogStore}
use aegisiq.LogStore.Relational.{sqlalchemy_store}
use aegisiq.Models.Agent.{Agent, AgentStatus}
use aegisiq.Models.Alert.{Alert, DetectionRule}
use aegisiq.Models.Json.{Json, obj}
use aegisiq.Models.Log.{Log}
use aegisiq.Models.Soar.{SoarAction}
use aegisiq.Soar.Decide.{respond_to_alert}
use aegisiq.Soar.Guard.{IpLibrary, Settings}
use aegisiq.Soar.Orders.{Db}
use aegisiq.Prelude.{
  ℕ, String, Bool, false, Option, none, some, List, [], ◌∷◌, map, ◌==◌, if◌then◌else◌, str_eq,
  or_else, first,
}

-- The tables; rows of logs and alerts newest first.
pub record State : Type 0 where
  pub agents : List Agent
  pub logs : List Log
  pub rules : List DetectionRule
  pub alerts : Alerts
  pub soar : Db

-- An external event store: its counts, and the id that it gives a log.
pub record External : Type 0 where
  pub store : LogStore
  pub index : Log → String

-- What the service takes from outside: libraries, settings, the keys that the database chooses, and how
-- it reads a value that stands where an instant is expected, if it does.
pub record World : Type 0 where
  pub re : Regex
  pub dumps : Submission → String
  pub library : Library
  pub ips : IpLibrary
  pub settings : Settings
  pub external : Option External
  pub new_log_id : List Log → ℕ
  pub new_alert_id : Alerts → ℕ
  pub new_action_id : List SoarAction → ℕ
  pub token : Db → String
  pub coerce : Json → Option ℕ

-- The response; its id is the row's or the external store's.
pub record Response : Type 0 where
  pub id : Option ℕ
  pub external_id : Option String
  pub event_type : String
  pub alert_ids : List ℕ

-- 404, an error of the database, or an answer. A log whose time is no instant can reach an external event
-- store: then no alert is created, since every rule computes its window first, and whether one gets so far and
-- raises, or the log is accepted without alerts, is left open.
pub data Outcome : Type 0 where
  unknown_agent database_error : Outcome
  no_window : State → Outcome
  accepted : Response → State → Outcome

-- `db.query(Agent).filter(Agent.agent_id == agent_id).first()`
unfoldable pub find_agent : String → List Agent → Option Agent
find_agent agent_id agents = first (λ (a : Agent). str_eq a.agent_id agent_id) agents

-- `_resolve_agent`: none is the 404
unfoldable pub resolve_agent : Option String → List Agent → Option (Option Agent)
unfolding find_agent
resolve_agent none agents = some none
resolve_agent (some agent_id) agents = elim (find_agent agent_id agents) [
  | none ↦ none
  | some agent ↦ some (some agent)
]

abbrev pub agent_hostname : Option Agent → Option String
agent_hostname none = none
agent_hostname (some agent) = some agent.hostname

abbrev pub agent_row : Option Agent → Option ℕ
agent_row none = none
agent_row (some agent) = some agent.id

-- `event.source or "generic"`
abbrev pub source_or_generic : Option String → String
source_or_generic none = "generic"
source_or_generic (some s) = if str_eq s "" then "generic" else s

unfoldable pub new_log : Option ℕ → ℕ → Option Agent → NormalizedEvent → Log
new_log id timestamp agent event = record {
  id = id;
  timestamp = timestamp;
  hostname = or_else event.hostname (agent_hostname agent);
  source_ip = event.source_ip;
  destination_ip = event.destination_ip;
  source_port = event.source_port;
  destination_port = event.destination_port;
  username = event.username;
  event_type = event.event_type;
  severity = event.severity;
  raw_log = event.raw_log;
  normalized_data = obj event.normalized_data;
  source = source_or_generic event.source;
  operating_system = event.operating_system;
  event_id = event.event_id;
  agent_id = agent_row agent;
}

unfoldable pub seen_row : ℕ → Agent → Agent → Agent
seen_row now agent a =
    if a.id == agent.id then record a { status = AgentStatus.online; last_seen = some now } else a

-- the agent's row after a log of it
unfoldable pub touch_agent : ℕ → Option Agent → List Agent → List Agent
unfolding seen_row
touch_agent now none agents = agents
touch_agent now (some agent) agents = map (seen_row now agent) agents

abbrev pub rule_of : Alert → List DetectionRule → Option DetectionRule
rule_of alert rules = first (λ (r : DetectionRule). r.id == alert.rule_id) rules

abbrev pub has_id : ℕ → Option ℕ → Bool
has_id n none = false
has_id n (some m) = m == n

-- `alert.log`
abbrev pub log_of : Alert → List Log → Option Log
log_of alert logs = elim alert.log_id [
  | none ↦ none
  | some n ↦ first (λ (l : Log). has_id n l.id) logs
]

-- `db.get(Alert, alert_id)`
abbrev pub alert_of : ℕ → Alerts → Option Alert
alert_of id alerts = first (λ (a : Alert). a.id == id) alerts

module _ (w : World) where
  unfoldable pub respond_to : ℕ → State → Option Alert → Db → Db
  unfolding respond_to_alert
  respond_to now s none db = db
  respond_to now s (some alert) db =
      (respond_to_alert w.ips w.new_action_id w.token w.settings alert (rule_of alert s.rules)
        (log_of alert s.logs) now db).1

  -- the loop of `process_normalized_event` over the new alerts
  unfoldable pub respond_all : ℕ → State → List ℕ → Db → Db
  unfolding respond_to
  respond_all now s [] db = db
  respond_all now s (id ∷ ids) db =
      respond_all now s ids (respond_to now s (alert_of id s.alerts) db)

  -- the counts that the detection rules read
  unfoldable pub store_of : State → LogStore
  store_of s = elim w.external [ none ↦ sqlalchemy_store s.logs | some e ↦ e.store ]

  -- `process_normalized_event`
  unfoldable pub process_normalized_event : ℕ → Log → State → List ℕ × State
  unfolding store_of respond_all evaluate
  process_normalized_event now log s =
      let (alert_ids, alerts) =
        evaluate w.library w.new_alert_id log (store_of s) s.rules s.alerts in
      let detected = record s { alerts = alerts } in
      (alert_ids, record detected { soar = respond_all now detected alert_ids s.soar })

  -- the log as it is stored: in the table, or in the external store only
  unfoldable pub store_log :
      ℕ → Option Agent → NormalizedEvent → State → (Log × Option String) × List Log
  unfolding new_log
  store_log timestamp agent event s = elim w.external [
    | none ↦
        let log = new_log (some (w.new_log_id s.logs)) timestamp agent event in
        ((log, none), log ∷ s.logs)
    | some e ↦ let log = new_log none timestamp agent event in ((log, some (e.index log)), s.logs)
  ]

  -- what follows once the log is stored
  unfoldable pub reply : ℕ → Option Agent → (Log × Option String) × List Log → State → Outcome
  unfolding touch_agent process_normalized_event
  reply now agent ((log, external_id), logs) s =
      let stored = record s { logs = logs; agents = touch_agent now agent s.agents } in
      let (alert_ids, s') = process_normalized_event now log stored in
      accepted
        (record {
          id = log.id;
          external_id = external_id;
          event_type = log.event_type;
          alert_ids = alert_ids;
        })
        s'

  -- what follows once the instant of the log is known
  unfoldable pub ingest_event : ℕ → ℕ → Option Agent → NormalizedEvent → State → Outcome
  unfolding store_log reply
  ingest_event now timestamp agent event s = reply now agent (store_log timestamp agent event s) s

  unfoldable pub ingest_at : ℕ → Option ℕ → Option Agent → NormalizedEvent → State → Outcome
  unfolding ingest_event touch_agent
  ingest_at now none agent event s = elim w.external [
    | none ↦ database_error
    | some e ↦ no_window (record s { agents = touch_agent now agent s.agents })
  ]
  ingest_at now (some timestamp) agent event s = ingest_event now timestamp agent event s

  -- an external store takes the value as it is
  unfoldable pub timestamp_of : EventTime → Option ℕ
  timestamp_of (instant t) = some t
  timestamp_of (value v) = elim w.external [ none ↦ w.coerce v | some e ↦ none ]

  -- `ingest_log`
  unfoldable pub ingest_log : ℕ → Option String → Submission → State → Outcome
  unfolding resolve_agent normalize ingest_at timestamp_of
  ingest_log now agent_id submission s = elim (resolve_agent agent_id s.agents) [
    | none ↦ unknown_agent
    | some agent ↦
        let event = normalize w.re w.dumps now submission in
        ingest_at now (timestamp_of event.timestamp) agent event s
  ]
