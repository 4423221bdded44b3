-- ===== src/Detection/Rules/Files.antt =====
-- backend/app/detection/rules/file_integrity.py
use aegisiq.Detection.Alerting.{Alerts, Verdict, alert_unless_active, window_start}
use aegisiq.Detection.Rules.Params.{first_text, nonblank_or}
use aegisiq.Detection.Rules.Threshold.{text_or}
use aegisiq.LogStore.{LogStore}
use aegisiq.Models.Alert.{DetectionRule, Description}
use aegisiq.Models.Json.{get, fields_of, items_of}
use aegisiq.Models.Log.{Log}
use aegisiq.Prelude.{
  ℕ, String, Bool, not, Option, none, some, List, [], ◌∷◌, ltb, if◌then◌else◌, str_eq, to_slashes,
  has_prefix, ends_in_slash, any,
}

abbrev pub default_critical_paths : List String
default_critical_paths =
    "/etc/passwd" ∷ "/etc/shadow" ∷ "/etc/sudoers" ∷ "/etc/sudoers.d/" ∷ "/etc/ssh/sshd_config"
    ∷ "/root/.ssh/" ∷ "C:\\Windows\\System32\\config\\SAM"
    ∷ "C:\\Windows\\System32\\drivers\\etc\\hosts" ∷ []

unfoldable pub extract_path : Log → Option String
extract_path log =
    first_text ("path" ∷ "file_path" ∷ "file" ∷ "target_file" ∷ []) (fields_of log.normalized_data)

unfoldable pub watched_paths : DetectionRule → List String
watched_paths rule =
    nonblank_or (items_of (get "critical_paths" (fields_of rule.parameters))) default_critical_paths

-- the body of the loop of `is_critical_path`
unfoldable pub watches : String → String → Bool
watches normalized watched =
    let watched_normalized = to_slashes watched in
    if ends_in_slash watched_normalized
    then has_prefix normalized watched_normalized
    else str_eq normalized watched_normalized

unfoldable pub is_critical_path : String → DetectionRule → Bool
is_critical_path path rule = any (watches (to_slashes path)) (watched_paths rule)

module _ (new_id : Alerts → ℕ) where
  -- the handler from the path on
  unfoldable pub judge_path : Option String → Log → DetectionRule → LogStore → Alerts → Verdict
  judge_path none log rule store alerts = (none, alerts)
  judge_path (some path) log rule store alerts =
      let count =
        store.count_by_normalized_path "file_integrity_change" path (window_start rule log)
          log.timestamp in
      if not (is_critical_path path rule)
      then (none, alerts)
      else if ltb count rule.threshold
      then (none, alerts)
      else alert_unless_active new_id rule log path (window_start rule log)
          (Description.file_changed path count rule.time_window_seconds
            (text_or log.username "an unidentified user") log.hostname)
          (some path) alerts

  unfoldable pub file_integrity : Log → DetectionRule → LogStore → Alerts → Verdict
  unfolding judge_path
  file_integrity log rule store alerts =
      if not (str_eq log.event_type "file_integrity_change")
      then (none, alerts)
      else judge_path (extract_path log) log rule store alerts
