-- ===== src/Detection/Rules/Privilege.antt =====
-- backend/app/detection/rules/privilege_escalation.py
use aegisiq.Detection.Alerting.{Alerts, Verdict, alert_unless_active, window_start}
use aegisiq.Detection.Rules.Params.{first_text, nonblank_or}
use aegisiq.LogStore.{LogStore}
use aegisiq.Models.Alert.{DetectionRule, Description}
use aegisiq.Models.Json.{get, fields_of, items_of}
use aegisiq.Models.Log.{Log}
use aegisiq.Prelude.{
  ℕ, String, Bool, false, not, Option, none, some, List, [], ◌∷◌, ltb, ◌==◌, if◌then◌else◌, str_eq,
  or_else, lower, strip, contains,
}

abbrev pub default_suspicious_commands : List String
default_suspicious_commands =
    "/bin/bash" ∷ "/bin/sh" ∷ "/bin/zsh" ∷ "/usr/bin/su" ∷ "passwd" ∷ "useradd" ∷ "usermod"
    ∷ "adduser" ∷ "visudo" ∷ "/etc/sudoers" ∷ "/etc/shadow" ∷ "chmod 777" ∷ "chown root" ∷ "setuid"
    ∷ "nc -e" ∷ []

unfoldable pub extract_command : Log → Option String
extract_command log =
    first_text ("command" ∷ "cmd" ∷ "process" ∷ "command_line" ∷ []) (fields_of log.normalized_data)

unfoldable pub suspicious_patterns : DetectionRule → List String
suspicious_patterns rule =
    nonblank_or (items_of (get "suspicious_commands" (fields_of rule.parameters)))
      default_suspicious_commands

-- the loop of `matched_pattern`
unfoldable pub first_in : String → List String → Option String
first_in lowered [] = none
first_in lowered (pattern ∷ rest) =
    let later = first_in lowered rest in
    if contains (lower (strip pattern)) lowered then some (strip pattern) else later

-- `log.event_id in {4672}`
unfoldable pub special_privileges : Option ℕ → Bool
special_privileges none = false
special_privileges (some n) = n == 4672

unfoldable pub matched_pattern : Log → DetectionRule → Option String
matched_pattern log rule =
    if special_privileges log.event_id
    then some "Windows Event ID 4672 (special privileges assigned)"
    else elim (extract_command log) [
      | none ↦ none
      | some command ↦ first_in (lower command) (suspicious_patterns rule)
    ]

module _ (new_id : Alerts → ℕ) where
  -- the handler from the actor on
  unfoldable pub judge_actor :
      String → Option String → Log → DetectionRule → LogStore → Alerts → Verdict
  judge_actor pattern none log rule store alerts = (none, alerts)
  judge_actor pattern (some actor) log rule store alerts =
      let count =
        store.count_events_by_actor "privilege_related" log.username log.source_ip
          (window_start rule log) log.timestamp in
      if str_eq actor ""
      then (none, alerts)
      else if ltb count rule.threshold
      then (none, alerts)
      else alert_unless_active new_id rule log actor (window_start rule log)
          (Description.privilege_escalation actor log.hostname pattern (extract_command log))
          (some actor) alerts

  unfoldable pub privilege_escalation : Log → DetectionRule → LogStore → Alerts → Verdict
  unfolding judge_actor
  privilege_escalation log rule store alerts =
      if not (str_eq log.event_type "privilege_related")
      then (none, alerts)
      else elim (matched_pattern log rule) [
        | none ↦ (none, alerts)
        | some pattern ↦
            judge_actor pattern (or_else log.username log.source_ip) log rule store alerts
      ]
