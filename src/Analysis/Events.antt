-- ===== src/Analysis/Events.antt =====
-- The events of an upload and the findings on them, from backend/app/analysis/engine.py. The prose
-- of a finding (`reason`, `mitre_blurb`) is left out. A time is the text that `isoformat` gave.
use aegisiq.Models.Alert.{DetectionRule}
use aegisiq.Models.Json.{Json, Fields}
use aegisiq.Models.Log.{Severity}
use aegisiq.Analysis.Groups.{collect}
use aegisiq.Prelude.{
  ℕ, ◌-◌, String, Bool, Option, none, some, List, [], ◌∷◌, ◌==◌, if◌then◌else◌, str_eq, or_else,
  strip, take_chars, take,
}

pub record Event : Type 0 where
  pub timestamp : Option String
  pub event_type : String
  pub severity : Severity
  pub source_ip : Option String
  pub destination_ip : Option String
  pub destination_port : Option ℕ
  pub username : Option String
  pub hostname : Option String
  pub event_id : Option ℕ
  pub raw_log : String
  pub normalized_data : Fields

-- The fields that a detector adds to its findings.
pub data Extra : Type 0 where
  no_extra : Extra
  targeted_usernames : List String → Extra
  scanned_ports : List ℕ → Extra
  compromised_account : Option String → Extra
  matched_command : String → Option Json → Extra
  web_pattern : String → List String → Extra
  ua_signature : String → Extra
  hresult : String → String → Extra
  security_event : ℕ → String → Bool → Extra
  failure_rate : ℕ → ℕ → Extra
  threat_signature : String → String → Extra
  correlated : String → ℕ → Bool → Extra
  sigma_rule : Option Json → String → Extra

pub record Finding : Type 0 where
  pub rule : String
  pub rule_type : String
  pub mitre : Option String
  pub kill_chain : Option String
  pub severity : Severity
  pub source : String
  pub count : ℕ
  pub first_seen : Option String
  pub last_seen : Option String
  pub sample_events : List String
  pub sample_indexes : List ℕ
  pub extra : Extra

-- what the findings read of a rule
pub record RuleInfo : Type 0 where
  pub name : String
  pub rule_type : String
  pub mitre_id : Option String
  pub kill_chain_phase : Option String
  pub severity : Severity

abbrev pub info_of : DetectionRule → RuleInfo
info_of rule = record {
  name = rule.name;
  rule_type = rule.rule_type;
  mitre_id = rule.mitre_id;
  kill_chain_phase = rule.kill_chain_phase;
  severity = rule.severity;
}

-- `_fake_rule`
abbrev pub fake_rule : String → String → String → String → Severity → RuleInfo
fake_rule rule_type name mitre kill_chain severity = record {
  name = name;
  rule_type = rule_type;
  mitre_id = some mitre;
  kill_chain_phase = some kill_chain;
  severity = severity;
}

-- `value or default`
abbrev pub or_text : Option String → String → String
or_text none default = default
or_text (some s) default = if str_eq s "" then default else s

-- `events[i]`
unfoldable pub event_at : List Event → ℕ → Option Event
event_at [] i = none
event_at (e ∷ es) i = let later = event_at es (i - 1) in if i == 0 then some e else later

abbrev pub head_of : List String → Option String
head_of [] = none
head_of (s ∷ texts) = some s

abbrev pub last_of : List String → Option String
last_of [] = none
last_of (s ∷ []) = some s
last_of (s ∷ t ∷ texts) = last_of (t ∷ texts)

-- `_SAMPLE_LINES_PER_FINDING`
abbrev pub sample_lines : ℕ
sample_lines = 5

module _ (events : List Event) where
  -- `_samples`
  sample : ℕ → Option String
  sample i = elim (event_at events i) [
    | none ↦ none
    | some e ↦ if str_eq (strip e.raw_log) "" then none else some (take_chars 500 (strip e.raw_log))
  ]

  unfoldable pub samples : List ℕ → List String
  unfolding sample
  samples indexes = collect sample (take sample_lines indexes)

  -- `_timeline`
  timed : ℕ → Option String
  timed i = elim (event_at events i) [ none ↦ none | some e ↦ or_else e.timestamp none ]

  unfoldable pub timeline : List ℕ → Option String × Option String
  unfolding timed
  timeline indexes = let times = collect timed indexes in (head_of times, last_of times)

  -- `_make_finding`, `_make`
  unfoldable pub make_finding : RuleInfo → String → ℕ → List ℕ → Extra → Finding
  unfolding samples timeline
  make_finding rule source count indexes extra = record {
    rule = rule.name;
    rule_type = rule.rule_type;
    mitre = rule.mitre_id;
    kill_chain = rule.kill_chain_phase;
    severity = rule.severity;
    source = source;
    count = count;
    first_seen = (timeline indexes).0;
    last_seen = (timeline indexes).1;
    sample_events = samples indexes;
    sample_indexes = take sample_lines indexes;
    extra = extra;
  }
