-- ===== src/Ingestion/Normalizer.antt =====
-- `normalize` of backend/app/ingestion/normalizer.py.
use aegisiq.Ingestion.Linux.{parse_linux_line}
use aegisiq.Ingestion.Regex.{Regex, merge, remove}
use aegisiq.Ingestion.Windows.{
  Parsed, looks_like_windows_event, mapped, parse_windows_event, windows_event_map,
}
use aegisiq.Models.Json.{Json, number, Fields, end, field, get, is_true}
use aegisiq.Models.Log.{Severity}
use aegisiq.Prelude.{
  ℕ, String, not, ◌&&◌, Option, none, some, ◌==◌, if◌then◌else◌, str_eq, or_else, decimal,
}

-- The submitted fields, as the schema has validated them.
pub record Submission : Type 0 where
  pub timestamp : Option ℕ
  pub hostname : Option String
  pub source_ip : Option String
  pub destination_ip : Option String
  pub source_port : Option ℕ
  pub destination_port : Option ℕ
  pub username : Option String
  pub event_type : Option String
  pub severity : Option Severity
  pub source : Option String
  pub operating_system : Option String
  pub event_id : Option ℕ
  pub raw_log : Option String
  pub metadata : Option Fields

-- What stands where an instant is expected: one, or a value of the client's metadata.
pub data EventTime : Type 0 where
  instant : ℕ → EventTime
  value : Json → EventTime

pub record NormalizedEvent : Type 0 where
  pub timestamp : EventTime
  pub event_type : String
  pub severity : Severity
  pub source : Option String
  pub operating_system : Option String
  pub hostname : Option String
  pub source_ip : Option String
  pub destination_ip : Option String
  pub source_port : Option ℕ
  pub destination_port : Option ℕ
  pub username : Option String
  pub event_id : Option ℕ
  pub raw_log : String
  pub normalized_data : Fields

-- The variables that `normalize` changes on its way.
pub record Draft : Type 0 where
  pub event_type : Option String
  pub severity : Option Severity
  pub username : Option String
  pub source_ip : Option String
  pub destination_port : Option ℕ
  pub event_id : Option ℕ
  pub extra : Fields
  pub event_time : Option ℕ

abbrev pub or_value {ℓ} : {A : Type ℓ} → Option A → Option A → Option A
or_value none b = b
or_value (some a) b = some a

-- `a or b` on numbers
abbrev pub or_number : Option ℕ → Option ℕ → Option ℕ
or_number none b = b
or_number (some a) b = if a == 0 then b else some a

abbrev pub fields_or_empty : Option Fields → Fields
fields_or_empty none = end
fields_or_empty (some fs) = fs

abbrev pub first_draft : Submission → Draft
first_draft s = record {
  event_type = s.event_type;
  severity = s.severity;
  username = s.username;
  source_ip = s.source_ip;
  destination_port = s.destination_port;
  event_id = s.event_id;
  extra = fields_or_empty s.metadata;
  event_time = none;
}

-- step 2: a known event id fills the type and the severity
unfoldable pub by_event_id : Draft → Draft
unfolding mapped
by_event_id d = elim d.event_type [
  | some t ↦ d
  | none ↦ elim d.event_id [
    | none ↦ d
    | some n ↦ elim (mapped n windows_event_map) [
      | none ↦ d
      | some (t, v) ↦ record d { event_type = some t; severity = or_value d.severity (some v) }
    ]
  ]
]

-- What a parser found fills the gaps; the client's own extras win. A parser's port is an extra that the
-- client's port keeps in the extras, and a parser's time is an extra that the client's wins over.
unfoldable pub fill_windows : Parsed → Draft → Draft
unfolding merge
fill_windows p d = record {
  event_type = some p.event_type;
  severity = or_value d.severity (some p.severity);
  username = or_else d.username p.username;
  source_ip = or_else d.source_ip p.source_ip;
  destination_port = d.destination_port;
  event_id = or_number d.event_id p.event_id;
  extra = merge p.extra d.extra;
  event_time = p.event_time;
}

-- the extras of a line that keep its port, when the client has given one
abbrev pub port_extra : Option ℕ → Option ℕ → Fields → Fields
port_extra none parsed extra = extra
port_extra (some given) none extra = extra
port_extra (some given) (some port) extra = field "destination_port" (number (decimal port)) extra

unfoldable pub fill_linux : Parsed → Draft → Draft
unfolding merge
fill_linux p d = record {
  event_type = some p.event_type;
  severity = or_value d.severity (some p.severity);
  username = or_else d.username p.username;
  source_ip = or_else d.source_ip p.source_ip;
  destination_port = or_value d.destination_port p.destination_port;
  event_id = d.event_id;
  extra = merge (port_extra d.destination_port p.destination_port p.extra) d.extra;
  event_time = d.event_time;
}

-- `extra.pop("_event_time", None)`: the client's value, or the time that a parser found
unfoldable pub client_time : Option Json → Option EventTime → Option EventTime
unfolding is_true
client_time none parsed = parsed
client_time (some v) parsed = if is_true v then some (value v) else none

abbrev pub parsed_time : Option ℕ → Option EventTime
parsed_time none = none
parsed_time (some t) = some (instant t)

-- `timestamp or parsed_time or now`
unfoldable pub choose_time : Option ℕ → Option EventTime → ℕ → EventTime
choose_time (some t) later now = instant t
choose_time none (some t) now = t
choose_time none none now = instant now

module _ (re : Regex) (dumps : Submission → String) where
  -- step 3 for a Windows event
  unfoldable pub by_windows : Option String → Draft → Draft
  unfolding looks_like_windows_event parse_windows_event fill_windows
  by_windows raw_log d = elim d.event_type [
    | some t ↦ d
    | none ↦ elim raw_log [
      | none ↦ d
      | some line ↦
          if not (str_eq line "") && looks_like_windows_event re line
          then elim (parse_windows_event re line) [ none ↦ d | some p ↦ fill_windows p d ]
          else d
    ]
  ]

  -- step 3 for a line of another kind
  unfoldable pub by_linux : Option String → Draft → Draft
  unfolding parse_linux_line fill_linux
  by_linux raw_log d = elim d.event_type [
    | some t ↦ d
    | none ↦ elim raw_log [
      | none ↦ d
      | some line ↦
          if str_eq line ""
          then d
          else elim (parse_linux_line re line) [ none ↦ d | some p ↦ fill_linux p d ]
    ]
  ]

  unfoldable pub kept_raw_log : Submission → String
  kept_raw_log s = elim s.raw_log [
    | none ↦ dumps s
    | some line ↦ if str_eq line "" then dumps s else line
  ]

  unfoldable pub complete : ℕ → Submission → Draft → NormalizedEvent
  unfolding client_time choose_time kept_raw_log remove
  complete now s d = record {
    timestamp =
        choose_time s.timestamp (client_time (get "_event_time" d.extra) (parsed_time d.event_time))
          now;
    event_type = elim d.event_type [ none ↦ "unparsed" | some t ↦ t ];
    severity = elim d.severity [ none ↦ Severity.low | some v ↦ v ];
    source = s.source;
    operating_system = s.operating_system;
    hostname = s.hostname;
    source_ip = d.source_ip;
    destination_ip = s.destination_ip;
    source_port = s.source_port;
    destination_port = d.destination_port;
    username = d.username;
    event_id = d.event_id;
    raw_log = kept_raw_log s;
    normalized_data = remove "_event_time" d.extra;
  }

  -- `normalize`
  unfoldable pub normalize : ℕ → Submission → NormalizedEvent
  unfolding by_event_id by_windows by_linux complete
  normalize now s =
      complete now s (by_linux s.raw_log (by_windows s.raw_log (by_event_id (first_draft s))))
