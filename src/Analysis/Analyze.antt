-- ===== src/Analysis/Analyze.antt =====
-- `analyze` of backend/app/analysis/engine.py. The upload is its bytes; decoding them, the instants of
-- `datetime.now`, one for each line, and `isoformat` are parameters, as are what the detectors take. The time that it took is left out.
use aegisiq.Analysis.Catalog.{compiled_signatures}
use aegisiq.Analysis.Classify.{classify_batch}
use aegisiq.Analysis.Correlate.{detect_correlations}
use aegisiq.Analysis.Events.{Event, Finding}
use aegisiq.Analysis.Lines.{Readers, parse_lines}
use aegisiq.Analysis.Report.{
  HourBucket, Indicators, counter, counted, iocs, most_common, severity_eq, timeline_buckets,
}
use aegisiq.Analysis.SigmaPass.{detect_sigma}
use aegisiq.Analysis.Signatures.{detect_threat_signatures}
use aegisiq.Analysis.Windows.{Markers, detect_windows_anomalies}
use aegisiq.Detection.Rules.{Library}
use aegisiq.Ingestion.Normalizer.{NormalizedEvent, Submission, instant, normalize, value}
use aegisiq.Ingestion.Regex.{Regex}
use aegisiq.Models.Alert.{DetectionRule}
use aegisiq.Models.Json.{Json, Fields, text}
use aegisiq.Models.Log.{Severity}
use aegisiq.Sigma.Matching.{SigmaRule}
use aegisiq.Sigma.Values.{Python}
use aegisiq.Prelude.{
  ℕ, suc, ◌+◌, String, Bool, ◌||◌, Option, none, some, List, [], ◌∷◌, ◌++◌, map, ltb, if◌then◌else◌,
  str_eq, length, take, where_rows, count_if,
}

-- What the analysis uses of its environment, and the tables that it reads.
pub record Environment : Type 0 where
  pub decode : List ℕ → String
  pub readers : Readers
  pub re : Regex
  pub dump : Submission → String
  pub clock : ℕ → ℕ
  pub isoformat : ℕ → String
  pub library : Library
  pub str_of : Json → String
  pub markers : Markers
  pub web_indicator : String → Bool
  pub regex_found : String → String → Bool
  pub compiles : String → Bool
  pub python : Python
  pub as_dict : Event → Fields
  pub sigma_rules : List SigmaRule

pub record Summary : Type 0 where
  pub format : String
  pub truncated : Bool
  pub total_bytes : ℕ
  pub total_lines : ℕ
  pub parsed_events : ℕ
  pub parse_errors : ℕ
  pub unparsed_events : ℕ
  pub event_type_counts : List (String × ℕ)
  pub severity_counts : List (Severity × ℕ)
  pub top_sources : List (String × ℕ)
  pub top_users : List (String × ℕ)
  pub findings : List Finding
  pub findings_by_severity : List (Severity × ℕ)
  pub findings_by_rule : List (String × ℕ)
  pub first_event_ts : Option String
  pub last_event_ts : Option String
  pub indicators : Indicators
  pub timeline : List HourBucket

abbrev pub max_bytes : ℕ
max_bytes = 52_428_800

abbrev pub max_lines : ℕ
max_lines = 100_000

-- `{"raw_log": line}`
abbrev pub only_raw_log : String → Submission
only_raw_log line = record {
  timestamp = none;
  hostname = none;
  source_ip = none;
  destination_ip = none;
  source_port = none;
  destination_port = none;
  username = none;
  event_type = none;
  severity = none;
  source = none;
  operating_system = none;
  event_id = none;
  raw_log = some line;
  metadata = none;
}

abbrev pub first_time : List Event → Option String
first_time [] = none
first_time (e ∷ es) = e.timestamp

abbrev pub last_time : List Event → Option String
last_time [] = none
last_time (e ∷ []) = e.timestamp
last_time (e ∷ d ∷ es) = last_time (d ∷ es)

module _ (env : Environment) where
  -- an event time that is no instant has no `isoformat`
  unfoldable pub event_of : NormalizedEvent → Option Event
  event_of n = elim n.timestamp [
    | value v ↦ none
    | instant t ↦ some record {
      timestamp = some (env.isoformat t);
      event_type = n.event_type;
      severity = n.severity;
      source_ip = n.source_ip;
      destination_ip = n.destination_ip;
      destination_port = n.destination_port;
      username = n.username;
      hostname = n.hostname;
      event_id = n.event_id;
      raw_log = n.raw_log;
      normalized_data = n.normalized_data;
    }
  ]

  -- the body of the loop over the lines; a line that is no text raises in the parsers
  unfoldable pub parse_line : ℕ → Json → Option Event
  unfolding event_of normalize
  parse_line i (text line) = event_of (normalize env.re env.dump (env.clock i) (only_raw_log line))
  parse_line i _ = none

  -- the loop over the lines, with the number of lines that raised
  unfoldable pub parse_all : ℕ → List Json → List Event × ℕ
  unfolding parse_line
  parse_all i [] = ([], 0)
  parse_all i (line ∷ lines) =
      let (events, errors) = parse_all (suc i) lines in
      elim (parse_line i line) [ none ↦ (events, errors + 1) | some e ↦ (e ∷ events, errors) ]

  -- the detectors, one after the other
  unfoldable pub all_findings : List Event → List DetectionRule → List Finding
  unfolding compiled_signatures classify_batch detect_windows_anomalies detect_threat_signatures
      detect_correlations detect_sigma
  all_findings events rules =
      classify_batch env.library env.str_of events rules
      ++ (detect_windows_anomalies env.markers events
          ++ (detect_threat_signatures env.web_indicator env.regex_found events
                (compiled_signatures env.compiles)
              ++ (detect_correlations events
                  ++ detect_sigma env.python env.as_dict events env.sigma_rules)))

  -- the summary of the events of the lines
  unfoldable pub summary_of : String → Bool → ℕ → List Json → List DetectionRule → Summary
  unfolding parse_all all_findings counter counted most_common iocs timeline_buckets
  summary_of format truncated total_bytes lines rules =
      let events = (parse_all 0 lines).0 in
      let findings = all_findings events rules in
      record {
        format = format;
        truncated = truncated;
        total_bytes = total_bytes;
        total_lines = length lines;
        parsed_events = length events;
        parse_errors = (parse_all 0 lines).1;
        unparsed_events = count_if (λ e. str_eq e.event_type "unparsed") events;
        event_type_counts = counter str_eq (map (λ e. e.event_type) events);
        severity_counts = counter severity_eq (map (λ e. e.severity) events);
        top_sources = most_common 10 (counted (λ e. e.source_ip) events);
        top_users = most_common 10 (counted (λ e. e.username) events);
        findings = findings;
        findings_by_severity = counter severity_eq (map (λ f. f.severity) findings);
        findings_by_rule = counter str_eq (map (λ f. f.rule_type) findings);
        first_event_ts = first_time events;
        last_event_ts = last_time events;
        indicators = iocs events;
        timeline = timeline_buckets events;
      }

  -- `analyze`, on the table of rules, of which it reads those that are enabled
  unfoldable pub analyze : List ℕ → List DetectionRule → Summary
  unfolding parse_lines summary_of
  analyze raw table =
      let kept = if ltb max_bytes (length raw) then take max_bytes raw else raw in
      let (lines, format) = parse_lines env.readers (env.decode kept) in
      let too_many = ltb max_lines (length lines) in
      summary_of format (ltb max_bytes (length raw) || too_many) (length kept)
        (if too_many then take max_lines lines else lines) (where_rows (λ rule. rule.enabled) table)
