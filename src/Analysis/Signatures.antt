-- ===== src/Analysis/Signatures.antt =====
-- `_detect_threat_signatures` of backend/app/analysis/engine.py. The catalog of signatures is an
-- argument; what its regular expressions and the one for web requests find is a parameter.
use aegisiq.Analysis.Events.{Event, Finding, fake_rule, make_finding, or_text, threat_signature}
use aegisiq.Analysis.Groups.{collect, group}
use aegisiq.Models.Json.{get, is_true, text_of}
use aegisiq.Models.Log.{Severity, medium, high, critical}
use aegisiq.Prelude.{
  ℕ, String, Bool, true, false, not, ◌&&◌, ◌||◌, Option, none, some, List, [], ◌∷◌, ◌++◌, leb,
  if◌then◌else◌, str_eq, opt_eq, or_else, concat, join, length, any,
}

-- a row of the catalog
pub record Signature : Type 0 where
  pub name : String
  pub pattern : String
  pub mitre : String
  pub kill_chain : String
  pub severity : Severity
  pub description : String

abbrev pub threat : String → String → String → String → Severity → String → Signature
threat name pattern mitre kill_chain severity description = record {
  name = name;
  pattern = pattern;
  mitre = mitre;
  kill_chain = kill_chain;
  severity = severity;
  description = description;
}

-- `_WEB_CONTEXT_SIGNATURES`
abbrev pub web_context_signatures : List String
web_context_signatures =
    "SQLI_TIME_BLIND" ∷ "SQLI_BOOLEAN" ∷ "SQLI_STACKED" ∷ "XXE_ATTACK" ∷ "SSRF_LOCAL"
    ∷ "SSTI_JINJA_2" ∷ "NOSQL_INJECTION" ∷ "LDAP_INJECTION" ∷ "XPATH_INJECTION"
    ∷ "PATH_TRAVERSAL_ENC" ∷ "PHP_LFI" ∷ "RFI_EXTERNAL" ∷ "OGNL_INJECTION" ∷ "SPEL_INJECTION"
    ∷ "PROTOTYPE_POLLUTION" ∷ "HTTP_REQUEST_SMUGGLING" ∷ "GRAPHQL_INTROSPECTION" ∷ "JWT_NONE_ALG"
    ∷ "LOG4SHELL_JNDI" ∷ "PROXYSHELL" ∷ "PROXYLOGON" ∷ "SPRING4SHELL" ∷ "CITRIX_BLEED"
    ∷ "MOVEIT_TRANSFER" ∷ "WEBSHELL_PHP" ∷ "WEBSHELL_JSP" ∷ "WEBSHELL_ASPX" ∷ "CHINA_CHOPPER"
    ∷ "MASSCAN_UA" ∷ "SLOW_LORIS" ∷ "CLOUD_METADATA_ACCESS" ∷ []

abbrev pub is_true_at : String → Event → Bool
is_true_at key e = elim (get key e.normalized_data) [ none ↦ false | some v ↦ is_true v ]

unfoldable pub actor_of : Event → String
actor_of e = or_text (or_else e.source_ip (or_else e.hostname e.username)) "-"

-- the values that a signature reads besides the raw line
unfoldable pub extras : List String → Event → List String
extras [] e = []
extras (key ∷ keys) e =
    let rest = extras keys e in
    elim (or_else (text_of (get key e.normalized_data)) none) [ none ↦ rest | some v ↦ v ∷ rest ]

unfoldable pub with_extras : String → List String → String
with_extras raw [] = raw
with_extras raw (v ∷ values) = concat raw (concat "  " (join "  " (v ∷ values)))

unfoldable pub scan_text : Event → String
unfolding extras with_extras
scan_text e = with_extras e.raw_log (
    extras
      ("url" ∷ "request_line" ∷ "path" ∷ "query" ∷ "body" ∷ "user_agent" ∷ "command" ∷ "cmd"
        ∷ "process" ∷ "command_line" ∷ [])
      e)

-- the severity of a signature that fired a number of times
unfoldable pub effective_severity : Severity → ℕ → Severity
effective_severity medium n = if leb 100 n then high else medium
effective_severity high n = if leb 100 n then critical else high
effective_severity severity n = severity

module _ (web_indicator : String → Bool) where
  unfoldable pub event_is_web : Event → String → Bool
  event_is_web e text =
      if str_eq e.event_type "web_request"
      then true
      else if is_true_at "url" e || (is_true_at "request_line" e || is_true_at "user_agent" e)
      then true
      else if opt_eq (text_of (get "platform" e.normalized_data)) (some "windows")
      then false
      else web_indicator text

module _ (web_indicator : String → Bool) (found : String → String → Bool) where
  -- whether a signature fires on an event
  unfoldable pub fires : Signature → Event → Bool
  unfolding event_is_web
  fires s e =
      if any (str_eq s.name) web_context_signatures
        && not (event_is_web web_indicator e (scan_text e))
      then false
      else found s.pattern (scan_text e)

  module _ (events : List Event) where
    unfoldable pub signature_group : Signature → String × List ℕ → Option Finding
    unfolding effective_severity
    signature_group s (actor, indexes) = some (
        make_finding events
          (fake_rule "threat_signature" (concat "Threat signature · " s.name) s.mitre s.kill_chain
            (effective_severity s.severity (length indexes)))
          actor (length indexes) indexes (threat_signature s.name s.description))

    unfoldable pub signature_findings : Signature → List Finding
    unfolding signature_group fires
    signature_findings s =
        collect (signature_group s)
          (group str_eq (λ e. if fires s e then actor_of e ∷ [] else []) 0 events [])

    unfoldable pub detect_threat_signatures : List Signature → List Finding
    unfolding signature_findings
    detect_threat_signatures [] = []
    detect_threat_signatures (s ∷ signatures) =
        signature_findings s ++ detect_threat_signatures signatures
