-- ===== src/Analysis/Tests.antt =====
-- The file analysis at work.
use aegisiq.Analysis.Analyze.{Environment}
use aegisiq.Analysis.Batch.{brute_force_findings}
use aegisiq.Analysis.BruteForce.{failed_from, on_source, brute_force_findings-counted}
use aegisiq.Analysis.Correlate.{detect_correlations}
use aegisiq.Analysis.Events.{Event}
use aegisiq.Analysis.Fired.{on_actor, relevant, signature_findings-relevant}
use aegisiq.Analysis.Guessed.{on_account, fails_for, guessed, detect_correlations-guessed}
use aegisiq.Analysis.Report.{timeline_buckets, severity_eq}
use aegisiq.Analysis.Signatures.{Signature, signature_findings}
use aegisiq.Analysis.Hours.{in_hour, sum_at, one_bucket, total_of, severity_of}
use aegisiq.Analysis.HoursOrder.{InOrder}
use aegisiq.Analysis.Timeline.{timeline_buckets-by_hour}
use aegisiq.Analysis.Windows.{rate_level}
use aegisiq.Models.Alert.{DetectionRule}
use aegisiq.Models.Json.{Json, obj, Fields, end, field, text}
use aegisiq.Models.Log.{Severity}
use aegisiq.Prelude.{
  String, ◌≡◌, refl, true, false, not, ◌&&◌, none, some, List, [], ◌∷◌, arith, leb, ◌==◌,
  if◌then◌else◌, str_eq, strip, contains, any, count_if,
}

abbrev sign_in : String → String → Event
sign_in at kind = record {
  timestamp = some at;
  event_type = kind;
  severity = Severity.medium;
  source_ip = some "203.0.113.9";
  destination_ip = none;
  destination_port = none;
  username = some "ana";
  hostname = none;
  event_id = none;
  raw_log = "localhost";
  normalized_data = end;
}

abbrev failed : Event
failed = sign_in "2026-01-05T10:00:00" "authentication_failure"

abbrev let_in : Event
let_in = sign_in "2026-01-05T11:30:00" "authentication_success"

-- the success comes behind the first failure, and before the last
abbrev guessing : List Event
guessing = failed ∷ let_in ∷ failed ∷ failed ∷ failed ∷ failed ∷ []

abbrev rule : DetectionRule
rule = record {
  id = 1;
  name = "Guessing";
  rule_type = "brute_force";
  threshold = 3;
  time_window_seconds = 60;
  severity = Severity.high;
  mitre_id = some "T1110";
  kill_chain_phase = none;
  parameters = obj end;
  enabled = true;
}

abbrev ssrf : Signature
ssrf = record {
  name = "SSRF_LOCAL";
  pattern = "localhost";
  mitre = "T1190";
  kill_chain = "Initial Access";
  severity = Severity.high;
  description = "A request to the host itself";
}

abbrev pub env : Environment
env = record {
  decode = λ raw. "one line";
  readers = record {
    splitlines = λ s. s ∷ [];
    loads = λ s. none;
    dumps = λ v. "{}";
    read_csv = λ s. none;
  };
  re = record {
    search = λ pattern s. none;
    findall = λ pattern s. [];
    search_ignoring_case = λ pattern s. none;
  };
  dump = λ s. "{}";
  clock = λ i. i;
  isoformat = λ t. "1970-01-01T00:00:00";
  library = record {
    regex_found = λ pattern s. false;
    raw_user_agent = λ s. none;
    unquote_plus = λ s. s;
  };
  str_of = λ v. "None";
  markers = record {
    hresult_codes = λ s. [];
    event_id_text = λ s. none;
    failure_marker = λ s. contains "error" s;
    cbs_marker = λ s. false;
    percent = λ m n. "0.0";
  };
  web_indicator = λ s. contains "http" s;
  regex_found = λ pattern s. contains pattern s;
  compiles = λ pattern. true;
  python = record {
    compile = λ pattern. none;
    repr = λ v. "None";
    technique = λ t. none;
    tactic = λ t. none;
  };
  as_dict = λ e. e.normalized_data;
  sigma_rules = [];
}

brute_force_findings-counted_example :
    (count_if
        (on_source "203.0.113.9" (λ n. n == count_if (failed_from "203.0.113.9") guessing))
        (brute_force_findings guessing rule)
      ≡ (if leb 3 (count_if (failed_from "203.0.113.9") guessing) then 1 else 0))
    × (count_if
          (on_source "203.0.113.9" (λ n. not (n == count_if (failed_from "203.0.113.9") guessing)))
          (brute_force_findings guessing rule)
        ≡ 0)
unfolding str_eq
brute_force_findings-counted_example =
    brute_force_findings-counted guessing rule "203.0.113.9" (omega arith) refl

signature_findings-relevant_example :
    (count_if
        (on_actor "203.0.113.9"
          (λ n. n == count_if (relevant (contains "http") contains ssrf "203.0.113.9") guessing))
        (signature_findings (contains "http") contains guessing ssrf)
      ≡ (if leb 1 (count_if (relevant (contains "http") contains ssrf "203.0.113.9") guessing)
          then 1
          else 0))
    × (count_if
          (on_actor "203.0.113.9" (λ n.
            not (n == count_if (relevant (contains "http") contains ssrf "203.0.113.9") guessing)))
          (signature_findings (contains "http") contains guessing ssrf)
        ≡ 0)
signature_findings-relevant_example =
    signature_findings-relevant (contains "http") contains guessing ssrf "203.0.113.9"

detect_correlations-guessed_example :
    (count_if (on_account "credential_compromise_pattern" "ana") (detect_correlations guessing)
      ≡ (if leb 5 (count_if (fails_for "ana") guessing) && guessed "ana" guessing then 1 else 0))
    × (count_if (on_account "brute_force_attempt" "ana") (detect_correlations guessing) ≡ (
        if leb 5 (count_if (fails_for "ana") guessing) && not (guessed "ana" guessing)
        then 1
        else 0))
detect_correlations-guessed_example = detect_correlations-guessed guessing "ana"

-- the five failures and the success between them are called a compromise
is_called_guessed : guessed "ana" guessing ≡ true
unfolding guessed str_eq any strip fails_for aegisiq.Analysis.Correlate.is_user
    aegisiq.Models.Json.get aegisiq.Analysis.Guessed.succeeds_for
is_called_guessed = refl

timeline_buckets-by_hour_example :
    (sum_at one_bucket "2026-01-05T11" (timeline_buckets guessing)
      ≡ (if leb 1 (count_if (in_hour "2026-01-05T11") guessing) then 1 else 0))
    × (sum_at total_of "2026-01-05T11" (timeline_buckets guessing)
        ≡ count_if (in_hour "2026-01-05T11") guessing)
    × (sum_at (severity_of Severity.medium) "2026-01-05T11" (timeline_buckets guessing)
        ≡ count_if
            (λ e. severity_eq e.severity Severity.medium && in_hour "2026-01-05T11" e)
            guessing)
    × InOrder (timeline_buckets guessing)
timeline_buckets-by_hour_example = timeline_buckets-by_hour guessing "2026-01-05T11" Severity.medium

-- a quarter of the events is critical, a tenth is high, a little less is nothing
rates :
    (rate_level 25 100 ≡ some ("Bulk failure / error events", Severity.critical))
    × (rate_level 10 100 ≡ some ("Elevated failure / error rate", Severity.high))
    × (rate_level 9 100 ≡ none)
unfolding rate_level
rates = (refl, refl, refl)
