-- ===== src/Analysis/ReportTests.antt =====
-- The reports at work.
use aegisiq.Analysis.Analyze.{Summary}
use aegisiq.Analysis.Built.{build_summary, build_summary-worst, has_severity, rank}
use aegisiq.Analysis.Events.{Finding, no_extra}
use aegisiq.Analysis.Reports.{
  Report, Request, answered, finish, new_report, get_report, list_reports, owned_by,
  upload_and_analyze,
}
use aegisiq.Analysis.Shown.{list_reports-own, upload_and_analyze-get_report}
use aegisiq.Analysis.Tests.{env}
use aegisiq.Models.Log.{Severity}
use aegisiq.Models.User.{User, UserRole}
use aegisiq.Prelude.{
  ◌≤◌, ◌≡◌, refl, true, false, none, some, [], ◌∷◌, length, where_rows, any, count_if, All,
}

abbrev finding : Severity → Finding
finding v = record {
  rule = "Guessing";
  rule_type = "brute_force";
  mitre = none;
  kill_chain = none;
  severity = v;
  source = "203.0.113.9";
  count = 3;
  first_seen = none;
  last_seen = none;
  sample_events = [];
  sample_indexes = [];
  extra = no_extra;
}

abbrev raw : Summary
raw = record {
  format = "text";
  truncated = false;
  total_bytes = 0;
  total_lines = 0;
  parsed_events = 0;
  parse_errors = 0;
  unparsed_events = 0;
  event_type_counts = [];
  severity_counts = [];
  top_sources = [];
  top_users = [];
  findings = finding Severity.medium ∷ finding Severity.high ∷ finding Severity.low ∷ [];
  findings_by_severity = [];
  findings_by_rule = [];
  first_event_ts = none;
  last_event_ts = none;
  indicators = record {
    source_ips = [];
    usernames = [];
    hostnames = [];
    ports = [];
    urls = [];
    user_agents = [];
  };
  timeline = [];
}

build_summary-worst_example :
    (any (has_severity Severity.high) raw.findings ≡ true)
    × All (λ f. rank f.severity ≤ rank Severity.high) raw.findings
unfolding build_summary
build_summary-worst_example = build_summary-worst raw Severity.high refl

abbrev ana : User
ana = record {
  id = 4;
  username = "ana";
  password_hash = "";
  role = UserRole.security_analyst;
  last_login = none;
  is_active = true;
  failed_login_count = 0;
  locked_until = none;
  token_version = 0;
  password_changed_at = none;
}

abbrev request : Request
request = record {
  license = some "premium";
  max_upload_mb = 25;
  new_id = 9;
  started = 10;
  finished = 20;
}

-- her report
abbrev hers : Report
hers =
    finish env [] request (1 ∷ 2 ∷ []) none
      (new_report env [] request ana "premium" (1 ∷ 2 ∷ []) "auth.log")

-- a report of another user
abbrev other : Report
other = record hers { id = 8; uploaded_by = some 5 }

upload_and_analyze-get_report_example :
    get_report request hers.id ana (other ∷ hers ∷ []) ≡ answered hers
unfolding upload_and_analyze finish any
upload_and_analyze-get_report_example =
    upload_and_analyze-get_report env [] request request ana "premium" "auth.log" none
      ((1 ∷ []) ∷ (2 ∷ []) ∷ []) hers (other ∷ []) (other ∷ hers ∷ []) refl refl refl

list_reports-own_example :
    All (λ r. owned_by ana r ≡ true) (hers ∷ [])
    × (1 ≡ count_if (owned_by ana) (other ∷ hers ∷ []))
    × (length (hers ∷ []) ≤ 200)
unfolding list_reports finish aegisiq.Prelude.where_rows
list_reports-own_example =
    list_reports-own request ana 50 0 1 (hers ∷ []) (other ∷ hers ∷ []) refl refl
