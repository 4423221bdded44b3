-- ===== src/Ingestion/Linux.antt =====
-- `_parse_linux_line` of backend/app/ingestion/normalizer.py: patterns in the order in which they are tried.
use aegisiq.Ingestion.Regex.{Regex, group, int}
use aegisiq.Ingestion.Windows.{Parsed}
use aegisiq.Models.Json.{number, text, Fields, end, field}
use aegisiq.Models.Log.{Severity}
use aegisiq.Prelude.{
  ℕ, String, ◌||◌, Option, none, some, if◌then◌else◌, str_eq, is_some, concat, strip, contains,
  digits, decimal,
}

-- A parser's result; `int` of a group of digits always succeeds.
abbrev pub found : String → Severity → Option String → Option String → Fields → Option ℕ → Parsed
found event_type severity username source_ip extra destination_port = record {
  event_type = event_type;
  severity = severity;
  username = username;
  source_ip = source_ip;
  event_id = none;
  extra = extra;
  event_time = none;
  destination_port = destination_port;
}

-- the port of a match, if the group took part
abbrev pub port_of : (String → Option String) → Option ℕ
port_of m = elim (m "port") [
  | none ↦ none
  | some digits ↦ if str_eq digits "" then none else int digits
]

-- the first pattern that is found
unfoldable pub or_try : Option Parsed → Option Parsed → Option Parsed
or_try none later = later
or_try (some p) later = some p

abbrev pub on_match :
    Option (String → Option String) → ((String → Option String) → Parsed) → Option Parsed
on_match none f = none
on_match (some m) f = some (f m)

abbrev pub group_in : String → Option (String → Option String) → Option String
group_in name none = none
group_in name (some m) = m name

-- the user agent of a request, if it is not empty
abbrev pub user_agent_field : Option String → Fields
user_agent_field ua = elim ua [
  | none ↦ end
  | some s ↦ if str_eq s "" then end else field "user_agent" (text s) end
]

abbrev pub status_text : String → String
status_text digits = elim (int digits) [ none ↦ "" | some n ↦ decimal n ]

module _ (re : Regex) where
  unfoldable pub failed_password : String → Option Parsed
  failed_password raw_log =
      on_match
        (re.search
          "Failed password for (?:invalid user )?(?P<username>\\S+) from (?P<source_ip>[\\d.]+)(?: port (?P<port>\\d+))?"
          raw_log)
        λ m.
          found "authentication_failure" Severity.medium (m "username") (m "source_ip") end
            (port_of m)

  unfoldable pub accepted_password : String → Option Parsed
  accepted_password raw_log =
      on_match
        (re.search
          "Accepted password for (?P<username>\\S+) from (?P<source_ip>[\\d.]+)(?: port (?P<port>\\d+))?"
          raw_log)
        λ m.
          found "authentication_success" Severity.low (m "username") (m "source_ip") end (port_of m)

  unfoldable pub pam_failure : String → Option Parsed
  pam_failure raw_log =
      on_match
        (re.search "authentication failure;.*user=(?P<username>\\S+).*rhost=(?P<source_ip>[\\d.]+)"
          raw_log)
        λ m. found "authentication_failure" Severity.medium (m "username") (m "source_ip") end none

  -- the two independent lookups, for logs with the fields in another order
  unfoldable pub pam_in_any_order : String → Option Parsed
  pam_in_any_order raw_log =
      if contains "authentication failure" raw_log
      then (let user_match = re.search "\\buser=(?P<username>\\S+)" raw_log in
          let host_match = re.search "\\brhost=(?P<source_ip>[\\d.]+)" raw_log in
          if is_some user_match || is_some host_match
          then some (
              found "authentication_failure" Severity.medium (group_in "username" user_match)
                (group_in "source_ip" host_match) end none)
          else none)
      else none

  unfoldable pub sudo_command : String → Option Parsed
  sudo_command raw_log =
      on_match (re.search "sudo:\\s*(?P<username>\\S+)\\s*:.*COMMAND=(?P<command>.+)" raw_log) λ m.
        found "privilege_related" Severity.medium (m "username") none
          (field "command" (text (strip (group "command" m))) end) none

  unfoldable pub integrity_violation : String → Option Parsed
  integrity_violation raw_log =
      on_match
        (re.search
          "File integrity violation:\\s*(?P<path>\\S+)\\s+modified by\\s+(?P<username>\\S+)"
          raw_log)
        λ m.
          found "file_integrity_change" Severity.high (m "username") none
            (field "path" (text (group "path" m)) end) none

  unfoldable pub connection_attempt : String → Option Parsed
  connection_attempt raw_log =
      on_match
        (re.search "Connection attempt from (?P<source_ip>[\\d.]+) to port (?P<port>\\d+)" raw_log)
        λ m. found "port_access" Severity.low none (m "source_ip") end (int (group "port" m))

  unfoldable pub access_line : String → Option Parsed
  access_line raw_log =
      on_match
        (re.search
          "(?P<source_ip>\\d+\\.\\d+\\.\\d+\\.\\d+)\\s+\\S+\\s+\\S+\\s+\\[[^\\]]+\\]\\s+\"(?P<method>GET|POST|PUT|DELETE|PATCH|HEAD|OPTIONS)\\s+(?P<url>.+?)\\s+HTTP/[0-9.]+\"\\s+(?P<status>\\d+)\\s+\\S+(?:\\s+\"[^\"]*\"\\s+\"(?P<ua>[^\"]*)\")?"
          raw_log)
        λ m.
          found "web_request" Severity.low none (m "source_ip")
            (field "method" (text (group "method" m)) (
              field "url" (text (group "url" m)) (
                field "http_status" (number (status_text (group "status" m))) (
                  field "request_line"
                    (text (concat (group "method" m) (concat " " (group "url" m))))
                    (user_agent_field (m "ua"))))))
            none

  -- `_parse_linux_line`
  unfoldable pub parse_linux_line : String → Option Parsed
  unfolding or_try failed_password accepted_password pam_failure pam_in_any_order sudo_command
      integrity_violation connection_attempt access_line
  parse_linux_line raw_log = or_try (failed_password raw_log) (
      or_try (accepted_password raw_log) (
        or_try (pam_failure raw_log) (
          or_try (pam_in_any_order raw_log) (
            or_try (sudo_command raw_log) (
              or_try (integrity_violation raw_log)
                (or_try (connection_attempt raw_log) (access_line raw_log)))))))
