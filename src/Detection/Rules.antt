-- ===== src/Detection/Rules.antt =====
-- backend/app/detection/rules: one handler for each rule type. A handler reads the log, the rule
-- and the event store, and returns the alert and the table of alerts.
mod Params
mod Threshold
mod Privilege
mod Files
mod Web
unfoldable pub use Threshold.{
  window_rule, brute_force, port_scan, credential_stuffing, login_after_failure,
}
unfoldable pub use Privilege.{judge_actor, privilege_escalation, matched_pattern, extract_command}
unfoldable pub use Files.{judge_path, file_integrity, is_critical_path, extract_path}
pub use Web.{Library}
unfoldable pub use Web.{
  judge_pattern, extract_targets, judge_signature, judge_user_agent, web_attack,
  suspicious_user_agent, matched_signature, matched, default_patterns, default_ua_signatures,
}
