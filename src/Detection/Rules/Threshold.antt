-- ===== src/Detection/Rules/Threshold.antt =====
-- backend/app/detection/rules/{brute_force,port_scan,credential_stuffing,login_after_failure}.py:
-- the rules that count events of one source address in a window.
use aegisiq.Detection.Alerting.{address, Alerts, Verdict, alert_unless_active, window_start}
use aegisiq.LogStore.{LogStore}
use aegisiq.Models.Alert.{DetectionRule, Description}
use aegisiq.Models.Log.{Log}
use aegisiq.Prelude.{
  ℕ, String, Bool, false, not, ◌&&◌, ◌||◌, Option, none, some, ltb, leb, if◌then◌else◌, str_eq,
  truthy, or_else,
}

-- `x or default` where the result is printed
unfoldable pub text_or : Option String → String → String
text_or o d = elim (or_else o none) [ none ↦ d | some s ↦ s ]

module _ (new_id : Alerts → ℕ) where
  -- What the four handlers share after their guards: the count against the threshold, then the
  -- test for an active alert of the address, then the new alert.
  unfoldable pub window_rule :
      ℕ → Description → Option String → Log → DetectionRule → Alerts → Verdict
  window_rule count description dedup_key log rule alerts =
      if ltb count rule.threshold
      then (none, alerts)
      else alert_unless_active new_id rule log (address log) (window_start rule log) description
          dedup_key alerts

  unfoldable pub brute_force : Log → DetectionRule → LogStore → Alerts → Verdict
  brute_force log rule store alerts =
      let count =
        store.count_events "authentication_failure" log.source_ip (window_start rule log)
          log.timestamp in
      if not (str_eq log.event_type "authentication_failure") || not (truthy log.source_ip)
      then (none, alerts)
      else window_rule count (Description.brute_force (address log) count rule.time_window_seconds)
          none log rule alerts

  unfoldable pub credential_stuffing : Log → DetectionRule → LogStore → Alerts → Verdict
  credential_stuffing log rule store alerts =
      let count =
        store.count_distinct_usernames "authentication_failure" log.source_ip
          (window_start rule log) log.timestamp in
      if not (str_eq log.event_type "authentication_failure") || not (truthy log.source_ip)
      then (none, alerts)
      else window_rule count
          (Description.credential_stuffing (address log) count rule.time_window_seconds) none log
          rule alerts

  unfoldable pub login_after_failure : Log → DetectionRule → LogStore → Alerts → Verdict
  login_after_failure log rule store alerts =
      let count =
        store.count_events "authentication_failure" log.source_ip (window_start rule log)
          log.timestamp in
      if not (str_eq log.event_type "authentication_success") || not (truthy log.source_ip)
      then (none, alerts)
      else window_rule count
          (Description.login_after_failure (text_or log.username "an unknown account") (address log)
            count rule.time_window_seconds)
          log.source_ip log rule alerts

  -- `_MIN_VALID_PORT <= log.destination_port <= _MAX_VALID_PORT`
  unfoldable pub valid_port : Option ℕ → Bool
  valid_port none = false
  valid_port (some p) = leb 0 p && leb p 65535

  unfoldable pub port_scan : Log → DetectionRule → LogStore → Alerts → Verdict
  port_scan log rule store alerts =
      let count = store.count_distinct_ports log.source_ip (window_start rule log) log.timestamp in
      if not (str_eq log.event_type "port_access") || not (truthy log.source_ip)
      then (none, alerts)
      else if not (valid_port log.destination_port)
      then (none, alerts)
      else window_rule count (Description.port_scan (address log) count rule.time_window_seconds)
          none log rule alerts
