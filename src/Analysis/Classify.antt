-- ===== src/Analysis/Classify.antt =====
-- The web rules of `_classify_batch` of backend/app/analysis/engine.py, and its loop over the rules.
-- What `re` finds and what `str` prints of a value that is no text are parameters.
use aegisiq.Analysis.Batch.{
  pair_eq, brute_force_findings, port_scan_findings, login_findings, stuffing_findings,
  file_findings, privilege_findings,
}
use aegisiq.Analysis.Events.{
  Event, Finding, web_pattern, ua_signature, info_of, make_finding, or_text,
}
use aegisiq.Analysis.Groups.{collect, group}
use aegisiq.Detection.Rules.{
  Library, matched, matched_signature, default_patterns, default_ua_signatures,
}
use aegisiq.Models.Alert.{DetectionRule}
use aegisiq.Models.Json.{Json, get, text_of, text}
use aegisiq.Prelude.{
  ℕ, String, not, Option, none, some, List, [], ◌∷◌, ◌++◌, map, if◌then◌else◌, str_eq, or_else,
  concat, join, length,
}

-- `_WEB_ATTACK_CVE_HINTS`
abbrev pub web_attack_cve_hints : List (String × List String)
web_attack_cve_hints =
    ("SQL_UNION", "OWASP A03:2021" ∷ "CWE-89" ∷ [])
    ∷ ("SQL_OR_1_EQ_1", "OWASP A03:2021" ∷ "CWE-89" ∷ [])
    ∷ ("SQL_COMMENT", "OWASP A03:2021" ∷ "CWE-89" ∷ [])
    ∷ ("XSS_SCRIPT", "OWASP A03:2021" ∷ "CWE-79" ∷ [])
    ∷ ("XSS_JS_URL", "OWASP A03:2021" ∷ "CWE-79" ∷ [])
    ∷ ("XSS_HANDLER", "OWASP A03:2021" ∷ "CWE-79" ∷ [])
    ∷ ("PATH_TRAVERSAL", "OWASP A01:2021" ∷ "CWE-22" ∷ [])
    ∷ ("PATH_ETC_PASSWD", "OWASP A01:2021" ∷ "CWE-22" ∷ [])
    ∷ ("CMD_INJECTION", "OWASP A03:2021" ∷ "CWE-77" ∷ [])
    ∷ ("CMD_PIPE", "OWASP A03:2021" ∷ "CWE-77" ∷ [])
    ∷ ("SSTI_JINJA", "OWASP A03:2021" ∷ "CWE-1336" ∷ [])
    ∷ ("LOG4SHELL", "CVE-2021-44228" ∷ "CVE-2021-45046" ∷ "CWE-502" ∷ [])
    ∷ []

unfoldable pub hints_for : String → List (String × List String) → List String
hints_for name [] = []
hints_for name ((k, hints) ∷ table) =
    let later = hints_for name table in if str_eq k name then hints else later

module _ (events : List Event) (rule : DetectionRule) where
  unfoldable pub pattern_group : (String × String) × List ℕ → Option Finding
  unfolding hints_for
  pattern_group ((src, name), indexes) = some (
      make_finding events (info_of rule) src (length indexes) indexes
        (web_pattern name (hints_for name web_attack_cve_hints)))

  unfoldable pub agent_group : (String × String) × List ℕ → Option Finding
  agent_group ((src, sig), indexes) =
      some (make_finding events (info_of rule) src (length indexes) indexes (ua_signature sig))

module _ (lib : Library) (str_of : Json → String) where
  -- `str(data.get(key, ""))`
  unfoldable pub printed : Option Json → String
  printed none = ""
  printed (some (text s)) = s
  printed (some v) = str_of v

  unfoldable pub request_text : Event → String
  unfolding printed
  request_text e =
      concat
        (join " " (
          map (λ key. printed (get key e.normalized_data))
            ("url" ∷ "request_line" ∷ "path" ∷ "query" ∷ "body" ∷ "user_agent" ∷ [])))
        (concat " " e.raw_log)

  unfoldable pub attack_key : Event → List (String × String)
  unfolding request_text
  attack_key e =
      if str_eq e.event_type "web_request"
      then elim (matched lib (request_text e) default_patterns) [
        | none ↦ []
        | some name ↦ (or_text e.source_ip "unknown", name) ∷ []
      ]
      else []

  unfoldable pub agent_key : Event → List (String × String)
  agent_key e = elim (or_else (text_of (get "user_agent" e.normalized_data)) none) [
    | none ↦ []
    | some ua ↦ elim (matched_signature ua default_ua_signatures) [
      | none ↦ []
      | some sig ↦ (or_text e.source_ip "unknown", sig) ∷ []
    ]
  ]

  -- the body of the loop over the rules
  unfoldable pub rule_findings : List Event → DetectionRule → List Finding
  unfolding pattern_group agent_group attack_key agent_key
  rule_findings events rule =
      let is = str_eq rule.rule_type in
      if not rule.enabled
      then []
      else if is "brute_force"
      then brute_force_findings events rule
      else if is "port_scan"
      then port_scan_findings events rule
      else if is "login_after_failure"
      then login_findings events rule
      else if is "credential_stuffing"
      then stuffing_findings events rule
      else if is "file_integrity"
      then file_findings events rule
      else if is "privilege_escalation"
      then privilege_findings events rule
      else if is "web_attack"
      then collect (pattern_group events rule) (group pair_eq attack_key 0 events [])
      else if is "suspicious_user_agent"
      then collect (agent_group events rule) (group pair_eq agent_key 0 events [])
      else []

  unfoldable pub classify_batch : List Event → List DetectionRule → List Finding
  unfolding rule_findings
  classify_batch events [] = []
  classify_batch events (rule ∷ rules) = rule_findings events rule ++ classify_batch events rules
