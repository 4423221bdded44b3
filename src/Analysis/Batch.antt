-- ===== src/Analysis/Batch.antt =====
-- `_classify_batch` of backend/app/analysis/engine.py: the detection rules on the events of a file.
use aegisiq.Analysis.Sorted.{sorted_numbers, sorted_texts}
use aegisiq.Detection.Rules.{is_critical_path, matched_pattern}
use aegisiq.Models.Alert.{DetectionRule}
use aegisiq.Models.Json.{obj, get, text_of}
use aegisiq.Models.Log.{Log}
use aegisiq.Analysis.Events.{
  Finding, event_at, info_of, make_finding, or_text, Event, no_extra, targeted_usernames,
  scanned_ports, compromised_account, matched_command,
}
use aegisiq.Analysis.Groups.{Groups, collect, positions, group}
use aegisiq.Prelude.{
  ℕ, suc, String, Bool, not, ◌&&◌, ◌||◌, Option, none, some, List, [], ◌∷◌, leb, if◌then◌else◌,
  str_eq, opt_eq, truthy, or_else, length, take,
}

abbrev pub pair_eq : String × String → String × String → Bool
pair_eq (a, b) (c, d) = str_eq a c && str_eq b d

-- the object that stands for a log in the rule's helper
abbrev pub fake_log : Event → Log
fake_log e = record {
  id = none;
  timestamp = 0;
  hostname = e.hostname;
  source_ip = e.source_ip;
  destination_ip = none;
  source_port = none;
  destination_port = none;
  username = e.username;
  event_type = e.event_type;
  severity = e.severity;
  raw_log = e.raw_log;
  normalized_data = obj e.normalized_data;
  source = "";
  operating_system = none;
  event_id = e.event_id;
  agent_id = none;
}

abbrev pub is_failure : Event → Bool
is_failure e = str_eq e.event_type "authentication_failure"

module _ (events : List Event) where
  unfoldable pub usernames : List ℕ → List String
  usernames indexes = sorted_texts (
      collect (λ i. elim (event_at events i) [ none ↦ none | some e ↦ or_else e.username none ])
        indexes)

  unfoldable pub ports : List ℕ → List ℕ
  ports indexes = sorted_numbers (
      collect (λ i. elim (event_at events i) [ none ↦ none | some e ↦ e.destination_port ]) indexes)

  -- `by_source_type`
  unfoldable pub by_source_type : Groups (String × String)
  by_source_type = group pair_eq (λ e. (or_text e.source_ip "", e.event_type) ∷ []) 0 events []

  module _ (rule : DetectionRule) where
    unfoldable pub brute_force_group : (String × String) × List ℕ → Option Finding
    unfolding usernames
    brute_force_group ((src, event_type), indexes) =
        if not (str_eq event_type "authentication_failure") || str_eq src ""
        then none
        else if leb rule.threshold (length indexes)
        then some (
            make_finding events (info_of rule) src (length indexes) indexes
              (targeted_usernames (take 5 (usernames indexes))))
        else none

    unfoldable pub brute_force_findings : List Finding
    unfolding by_source_type brute_force_group
    brute_force_findings = collect brute_force_group by_source_type

    unfoldable pub port_scan_group : (String × String) × List ℕ → Option Finding
    unfolding ports
    port_scan_group ((src, event_type), indexes) =
        if not (str_eq event_type "port_access") || str_eq src ""
        then none
        else if leb rule.threshold (length (ports indexes))
        then some (
            make_finding events (info_of rule) src (length (ports indexes)) indexes
              (scanned_ports (take 50 (ports indexes))))
        else none

    unfoldable pub port_scan_findings : List Finding
    unfolding by_source_type port_scan_group
    port_scan_findings = collect port_scan_group by_source_type

    -- `fail_idxs` of the event with an index
    unfoldable pub failures_before : String → ℕ → List ℕ
    failures_before src i =
        positions (λ e. is_failure e && opt_eq e.source_ip (some src)) 0 (take i events)

    -- the body of the loop of login_after_failure
    unfoldable pub login_finding : ℕ → Event → Option Finding
    unfolding failures_before
    login_finding i e =
        let src = or_text e.source_ip "" in
        let failures = failures_before src i in
        if not (str_eq e.event_type "authentication_success") || str_eq src ""
        then none
        else if leb rule.threshold (length failures)
        then some (
            make_finding events (info_of rule) src (length failures) (i ∷ failures)
              (compromised_account e.username))
        else none

    -- `enumerate`, for a body that finds one thing at most
    unfoldable pub enumerated : (ℕ → Event → Option Finding) → ℕ → List Event → List Finding
    enumerated body i [] = []
    enumerated body i (e ∷ es) =
        let rest = enumerated body (suc i) es in elim (body i e) [ none ↦ rest | some f ↦ f ∷ rest ]

    unfoldable pub login_findings : List Finding
    unfolding enumerated login_finding
    login_findings = enumerated login_finding 0 events

    -- `by_ip`; the names of `by_ip_users` are those of the same events
    unfoldable pub stuffing_groups : Groups String
    stuffing_groups =
        group str_eq
          (λ e.
            if is_failure e && (truthy e.source_ip && truthy e.username)
            then or_text e.source_ip "" ∷ []
            else [])
          0 events []

    unfoldable pub stuffing_group : String × List ℕ → Option Finding
    unfolding usernames
    stuffing_group (src, indexes) =
        let users = usernames indexes in
        if leb rule.threshold (length users)
        then some (
            make_finding events (info_of rule) src (length users) indexes
              (targeted_usernames (take 10 users)))
        else none

    unfoldable pub stuffing_findings : List Finding
    unfolding stuffing_groups stuffing_group
    stuffing_findings = collect stuffing_group stuffing_groups

    -- the path of an event on a critical file
    unfoldable pub critical_path : Event → List String
    critical_path e =
        if str_eq e.event_type "file_integrity_change"
        then elim (or_else (text_of (get "path" e.normalized_data)) none) [
          | none ↦ []
          | some p ↦ if is_critical_path p rule then p ∷ [] else []
        ]
        else []

    unfoldable pub file_group : String × List ℕ → Option Finding
    file_group (path, indexes) =
        if leb rule.threshold (length indexes)
        then some (make_finding events (info_of rule) path (length indexes) indexes no_extra)
        else none

    unfoldable pub file_findings : List Finding
    unfolding critical_path file_group
    file_findings = collect file_group (group str_eq critical_path 0 events [])

    unfoldable pub privilege_finding : ℕ → Event → Option Finding
    privilege_finding i e =
        if not (str_eq e.event_type "privilege_related")
        then none
        else elim (matched_pattern (fake_log e) rule) [
          | none ↦ none
          | some pattern ↦
              if str_eq pattern ""
              then none
              else some (
                  make_finding events (info_of rule)
                    (or_text (or_else e.username e.source_ip) "unknown") 1 (i ∷ [])
                    (matched_command pattern (get "command" e.normalized_data)))
        ]

    unfoldable pub privilege_findings : List Finding
    unfolding enumerated privilege_finding
    privilege_findings = enumerated privilege_finding 0 events
