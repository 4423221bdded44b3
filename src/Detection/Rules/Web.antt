-- ===== src/Detection/Rules/Web.antt =====
-- backend/app/detection/rules/web_attack.py and suspicious_user_agent.py. What Python's `re` and
-- `urllib.parse` answer is a parameter: whether a pattern is found in a text, the first User-Agent
-- of a raw line, and one round of URL decoding. A pattern that does not compile is not modelled.
use aegisiq.Detection.Alerting.{Alerts, Verdict, alert_unless_active, window_start}
use aegisiq.Detection.Rules.Params.{named_pairs, pairs_or}
use aegisiq.Detection.Rules.Threshold.{text_or}
use aegisiq.LogStore.{LogStore}
use aegisiq.Models.Alert.{DetectionRule, Description}
use aegisiq.Models.Json.{Fields, get, fields_of, items_of, text_of}
use aegisiq.Models.Log.{Log}
use aegisiq.Prelude.{
  ℕ, zero, suc, String, Bool, true, false, not, Option, none, some, List, [], ◌∷◌, ◌++◌,
  if◌then◌else◌, str_eq, or_else, concat, lower, contains, join,
}

abbrev pub default_ua_signatures : List (String × String)
default_ua_signatures =
    ("sqlmap", "sqlmap")
    ∷ ("nikto", "nikto")
    ∷ ("nmap_nse", "nmap scripting engine")
    ∷ ("metasploit", "metasploit")
    ∷ ("wpscan", "wpscan")
    ∷ ("dirbuster", "dirbuster")
    ∷ ("gobuster", "gobuster")
    ∷ ("hydra", "hydra")
    ∷ ("ffuf", "ffuf")
    ∷ ("burp", "burp")
    ∷ ("acunetix", "acunetix")
    ∷ ("nuclei", "nuclei")
    ∷ ("masscan", "masscan")
    ∷ ("zaproxy", "zaproxy")
    ∷ ("curl_pentest", "curl/")
    ∷ []

abbrev pub default_patterns : List (String × String)
default_patterns =
    ("SQL_UNION", "(?i)\\bunion(\\s+all)?\\s+select\\b")
    ∷ ("SQL_OR_1_EQ_1", "(?i)['\\\"]\\s*or\\s+['\\\"]?\\d+['\\\"]?\\s*=\\s*['\\\"]?\\d")
    ∷ ("SQL_COMMENT", "(?i)(--\\s|#)\\s*(?:sleep|benchmark|drop|truncate|update|insert)")
    ∷ ("XSS_SCRIPT", "(?i)<\\s*script[\\s>]")
    ∷ ("XSS_JS_URL", "(?i)javascript\\s*:")
    ∷ ("XSS_HANDLER", "(?i)\\bon(?:load|error|click|mouseover)\\s*=")
    ∷ ("PATH_TRAVERSAL", "(\\.\\./|\\.\\.\\\\){2,}")
    ∷ ("PATH_ETC_PASSWD", "(?i)/etc/passwd|/proc/self/environ|c:\\\\windows\\\\win\\.ini")
    ∷ ("CMD_INJECTION", "(?i);\\s*(?:cat|wget|curl|nc|bash|sh|whoami|id|uname)\\s")
    ∷ ("CMD_PIPE", "(?i)\\|\\s*(?:nc|bash|sh|whoami|id|uname)")
    ∷ ("SSTI_JINJA", "\\{\\{\\s*[^}]{0,32}(?:config|self|request|__)")
    ∷ ("LOG4SHELL", "\\$\\{jndi:(?:ldap|rmi|dns|nis|iiop|corba|nds|http)")
    ∷ []

pub record Library : Type 0 where
  pub regex_found : String → String → Bool
  pub raw_user_agent : String → Option String
  pub unquote_plus : String → String

-- `matched_signature`
unfoldable pub matched_signature : String → List (String × String) → Option String
matched_signature ua [] = none
matched_signature ua ((name, needle) ∷ sigs) =
    let later = matched_signature ua sigs in
    if contains (lower needle) (lower ua) then some name else later

module _ (lib : Library) where
  unfoldable pub extract_ua : Log → Option String
  extract_ua log =
      let fs = fields_of log.normalized_data in
      elim (text_of (get "user_agent" fs)) [
        | some v ↦ some v
        | none ↦ elim (text_of (get "User-Agent" fs)) [
          | some v ↦ some v
          | none ↦ elim (text_of (get "ua" fs)) [
            | some v ↦ some v
            | none ↦
                if contains "User-Agent" log.raw_log then lib.raw_user_agent log.raw_log else none
          ]
        ]
      ]

  -- the loop of `_decode_layers`, on the rounds left
  unfoldable pub decode_layers : ℕ → String → List String
  decode_layers zero current = []
  decode_layers (suc rounds) current =
      let decoded = lib.unquote_plus current in
      elim (str_eq decoded current) [ true ↦ [] | false ↦ decoded ∷ decode_layers rounds decoded ]

  -- the values of the keys, each with its decoded forms
  unfoldable pub field_parts : List String → Fields → List String
  field_parts [] fs = []
  field_parts (key ∷ keys) fs =
      let rest = field_parts keys fs in
      elim (or_else (text_of (get key fs)) none) [
        | none ↦ rest
        | some v ↦ (v ∷ decode_layers 2 v) ++ rest
      ]

  unfoldable pub extract_targets : Log → String
  extract_targets log =
      let fields =
        field_parts ("url" ∷ "request_line" ∷ "path" ∷ "query" ∷ "body" ∷ "user_agent" ∷ [])
          (fields_of log.normalized_data) in
      let raw = if str_eq log.raw_log "" then [] else log.raw_log ∷ decode_layers 2 log.raw_log in
      join "  " (fields ++ raw)

  -- `matched`
  unfoldable pub matched : String → List (String × String) → Option String
  matched text [] = none
  matched text ((name, rx) ∷ patterns) =
      let later = matched text patterns in if lib.regex_found rx text then some name else later

  unfoldable pub patterns : DetectionRule → List (String × String)
  patterns rule =
      pairs_or (named_pairs "name" "regex" (items_of (get "patterns" (fields_of rule.parameters))))
        default_patterns

  unfoldable pub signatures : DetectionRule → List (String × String)
  signatures rule =
      pairs_or
        (named_pairs "name" "needle" (items_of (get "ua_signatures" (fields_of rule.parameters))))
        default_ua_signatures

  module _ (new_id : Alerts → ℕ) where
    unfoldable pub judge_pattern : Option String → Log → DetectionRule → Alerts → Verdict
    judge_pattern none log rule alerts = (none, alerts)
    judge_pattern (some name) log rule alerts =
        let src = text_or log.source_ip "unknown" in
        let key = concat src (concat "::" name) in
        alert_unless_active new_id rule log key (window_start rule log)
          (Description.web_attack name src log.hostname) (some key) alerts

    unfoldable pub web_attack : Log → DetectionRule → LogStore → Alerts → Verdict
    unfolding judge_pattern
    web_attack log rule store alerts =
        if not (str_eq log.event_type "web_request")
        then (none, alerts)
        else if str_eq (extract_targets log) ""
        then (none, alerts)
        else judge_pattern (matched (extract_targets log) (patterns rule)) log rule alerts

    unfoldable pub judge_signature : String → Option String → Log → DetectionRule → Alerts → Verdict
    judge_signature ua none log rule alerts = (none, alerts)
    judge_signature ua (some sig) log rule alerts =
        let src = text_or log.source_ip "unknown" in
        let key = concat src (concat "::ua::" sig) in
        alert_unless_active new_id rule log key (window_start rule log)
          (Description.user_agent sig src ua) (some key) alerts

    unfoldable pub judge_user_agent : Option String → Log → DetectionRule → Alerts → Verdict
    unfolding judge_signature
    judge_user_agent none log rule alerts = (none, alerts)
    judge_user_agent (some ua) log rule alerts =
        judge_signature ua (matched_signature ua (signatures rule)) log rule alerts

    unfoldable pub suspicious_user_agent : Log → DetectionRule → LogStore → Alerts → Verdict
    unfolding judge_user_agent
    suspicious_user_agent log rule store alerts =
        judge_user_agent (or_else (extract_ua log) none) log rule alerts
