-- ===== src/Analysis/Windows.antt =====
-- `_detect_windows_anomalies` of backend/app/analysis/engine.py. What its regular expressions find in a
-- raw line is a parameter.
use aegisiq.Analysis.Events.{
  Event, Finding, fake_rule, make_finding, hresult, security_event, failure_rate, no_extra,
}
use aegisiq.Analysis.Groups.{collect, group, positions}
use aegisiq.Models.Json.{get, is_true}
use aegisiq.Models.Log.{Severity, low, medium, high, critical}
use aegisiq.Prelude.{
  ℕ, ◌*◌, String, Bool, true, false, not, ◌&&◌, Option, none, some, List, [], ◌∷◌, ◌++◌, ltb, leb,
  ◌==◌, if◌then◌else◌, str_eq, is_some, concat, decimal, length, where_rows, first, any,
}

-- `_DANGEROUS_HRESULTS`
abbrev pub dangerous_hresults : List (String × (String × Severity))
dangerous_hresults =
    ("0x800f080d", ("CBS_E_MANIFEST_INVALID_ITEM", high))
    ∷ ("0x800f0805", ("CBS_E_NOT_APPLICABLE", medium))
    ∷ ("0x80070005", ("E_ACCESSDENIED", high))
    ∷ ("0x8007052e", ("ERROR_LOGON_FAILURE", high))
    ∷ ("0x80070032", ("ERROR_NOT_SUPPORTED", medium))
    ∷ ("0x80004005", ("E_FAIL", medium))
    ∷ ("0x80070001", ("ERROR_INVALID_FUNCTION", medium))
    ∷ ("0x800705aa", ("ERROR_NO_SYSTEM_RESOURCES", high))
    ∷ ("0x8009030d", ("SEC_E_UNKNOWN_CREDENTIALS", high))
    ∷ []

pub record SecurityEvent : Type 0 where
  pub id : ℕ
  pub name : String
  pub severity : Severity
  pub description : String
  pub mitre : String
  pub kill_chain : String
  pub context_sensitive : Bool

abbrev pub security_event_id :
    ℕ → String → Severity → String → String → String → Bool → SecurityEvent
security_event_id id name severity description mitre kill_chain context_sensitive = record {
  id = id;
  name = name;
  severity = severity;
  description = description;
  mitre = mitre;
  kill_chain = kill_chain;
  context_sensitive = context_sensitive;
}

-- `_SECURITY_EVENT_IDS`
abbrev pub security_event_ids : List SecurityEvent
security_event_ids =
    security_event_id 4625 "Failed logon" medium "Failed logon attempt" "T1110" "Credential Access"
      false
    ∷ security_event_id 4624 "Successful logon" low "Successful logon" "T1078" "Initial Access" true
    ∷ security_event_id 4672 "Special privileges" medium
        "Special privileges assigned to a new logon" "T1078" "Privilege Escalation" true
    ∷ security_event_id 4648 "Explicit-credential logon" low
        "A logon was attempted using explicit credentials" "T1078" "Lateral Movement" true
    ∷ security_event_id 4720 "Account created" high "A user account was created" "T1136.001"
        "Persistence" false
    ∷ security_event_id 4726 "Account deleted" medium "A user account was deleted" "T1531" "Impact"
        false
    ∷ security_event_id 4732 "Added to security group" high
        "Member added to a security-enabled local group" "T1098" "Persistence" false
    ∷ security_event_id 4756 "Added to universal group" high
        "Member added to a security-enabled universal group" "T1098" "Persistence" false
    ∷ security_event_id 4740 "Account locked out" medium "A user account was locked out" "T1110"
        "Credential Access" false
    ∷ security_event_id 4776 "Credential validation" low "Credential validation attempt" "T1110"
        "Credential Access" false
    ∷ security_event_id 1102 "Audit log cleared" critical "The security audit log was cleared"
        "T1070.001" "Defense Evasion" false
    ∷ security_event_id 1116 "Defender: malware" critical "Windows Defender detected malware"
        "T1059" "Execution" false
    ∷ security_event_id 1117 "Defender: action" critical "Windows Defender acted on malware" "T1059"
        "Execution" false
    ∷ security_event_id 7045 "Service installed" high "A service was installed on the system"
        "T1543.003" "Persistence" false
    ∷ []

unfoldable pub hresult_of :
    String → List (String × (String × Severity)) → Option (String × Severity)
hresult_of code [] = none
hresult_of code ((c, entry) ∷ table) =
    let later = hresult_of code table in if str_eq c code then some entry else later

-- What the regular expressions find in a line: the codes behind `HRESULT =` in lower case, the number
-- behind `Event ID`, and whether there is a marker of a failure or a CBS error. `percent` prints a rate.
pub record Markers : Type 0 where
  pub hresult_codes : String → List String
  pub event_id_text : String → Option ℕ
  pub failure_marker : String → Bool
  pub cbs_marker : String → Bool
  pub percent : ℕ → ℕ → String

abbrev is_critical : Severity → Bool
is_critical critical = true
is_critical _ = false

-- the severity of a code that was seen a number of times
unfoldable pub hresult_severity : Severity → ℕ → Severity
hresult_severity severity n = if leb 50 n && not (is_critical severity) then critical else severity

-- `_is_service`
unfoldable pub is_service : Event → Bool
is_service e = elim (get "is_service_account" e.normalized_data) [
  | none ↦ true
  | some v ↦ is_true v
]

-- the severity of an event id, by the acting account and the number of events
unfoldable pub event_severity : SecurityEvent → Bool → ℕ → Severity
event_severity s service n =
    let judged =
      if s.context_sensitive && service
      then low
      else if s.context_sensitive && s.id == 4672
      then high
      else s.severity in
    if s.id == 4625 && leb 20 n then high else judged

abbrev pub id_eq : ℕ × Bool → ℕ × Bool → Bool
id_eq (a, true) (b, true) = a == b
id_eq (a, false) (b, false) = a == b
id_eq (a, true) (b, false) = false
id_eq (a, false) (b, true) = false

-- the name and the severity of the finding on so many failures among so many events
unfoldable pub rate_level : ℕ → ℕ → Option (String × Severity)
rate_level failures total =
    if not (leb 100 total)
    then none
    else if leb total (4 * failures)
    then some ("Bulk failure / error events", critical)
    else if leb total (10 * failures)
    then some ("Elevated failure / error rate", high)
    else none

module _ (m : Markers) (events : List Event) where
  unfoldable pub dangerous_codes : Event → List String
  unfolding hresult_of
  dangerous_codes e =
      where_rows (λ code. is_some (hresult_of code dangerous_hresults)) (m.hresult_codes e.raw_log)

  unfoldable pub hresult_group : String × List ℕ → Option Finding
  unfolding hresult_of hresult_severity
  hresult_group (code, indexes) = elim (hresult_of code dangerous_hresults) [
    | none ↦ none
    | some (name, severity) ↦ some (
        make_finding events
          (fake_rule "windows_hresult_anomaly" (concat "Windows HRESULT anomaly · " name) "T1562"
            "Defense Evasion" (hresult_severity severity (length indexes)))
          code (length indexes) indexes (hresult code name))
  ]

  unfoldable pub hresult_findings : List Finding
  unfolding dangerous_codes hresult_group
  hresult_findings = collect hresult_group (group str_eq dangerous_codes 0 events [])

  -- the id of an event, from its field or from its line
  unfoldable pub event_id_of : Event → Option ℕ
  event_id_of e = elim e.event_id [ none ↦ m.event_id_text e.raw_log | some n ↦ some n ]

  unfoldable pub security_key : Event → List (ℕ × Bool)
  unfolding event_id_of is_service
  security_key e = elim (event_id_of e) [
    | none ↦ []
    | some n ↦ if any (λ s. s.id == n) security_event_ids then (n, is_service e) ∷ [] else []
  ]

  unfoldable pub security_group : (ℕ × Bool) × List ℕ → Option Finding
  unfolding event_severity
  security_group ((n, service), indexes) = elim (first (λ s. s.id == n) security_event_ids) [
    | none ↦ none
    | some s ↦ some (
        make_finding events
          (fake_rule "windows_security_event"
            (concat (concat "Windows Security Event " (concat (decimal n) (concat " · " s.name)))
              (if s.context_sensitive && service then " (service account — informational)" else ""))
            s.mitre s.kill_chain (event_severity s service (length indexes)))
          (concat "EventID " (
            concat (decimal n) (
              concat " (" (
                concat (if service then "service/built-in account" else "real user account") ")"))))
          (length indexes) indexes (security_event n s.name service))
  ]

  unfoldable pub security_findings : List Finding
  unfolding security_key security_group
  security_findings = collect security_group (group id_eq security_key 0 events [])

  unfoldable pub rate_findings : List Finding
  unfolding rate_level
  rate_findings =
      let failed = positions (λ e. m.failure_marker e.raw_log) 0 events in
      let total = length events in
      elim (rate_level (length failed) total) [
        | none ↦ []
        | some (name, severity) ↦
            make_finding events (fake_rule "log_failure_burst" name "T1499" "Impact" severity)
              (concat (m.percent (length failed) total) "% of events") (length failed) failed
              (failure_rate (length failed) total)
            ∷ []
      ]

  unfoldable pub cbs_findings : List Finding
  cbs_findings =
      let hits = positions (λ e. m.cbs_marker e.raw_log) 0 events in
      if leb 20 (length hits)
      then make_finding events
          (fake_rule "windows_servicing_integrity" "Windows servicing-store integrity anomaly"
            "T1553" "Defense Evasion" (if ltb (length hits) 100 then high else critical))
          "CBS / servicing store" (length hits) hits no_extra
        ∷ []
      else []

  unfoldable pub detect_windows_anomalies : List Finding
  unfolding hresult_findings security_findings rate_findings cbs_findings
  detect_windows_anomalies =
      hresult_findings ++ (security_findings ++ (rate_findings ++ cbs_findings))
