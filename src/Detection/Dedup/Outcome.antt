-- ===== src/Detection/Dedup/Outcome.antt =====
-- Every handler either leaves the table as it is, or adds one alert under a key that had no active
-- alert of the rule.
use aegisiq.Detection.Alerting.{
  Alerts, Verdict, address, has_active_alert, create_alert, alert_unless_active, window_start,
  new_alert,
}
use aegisiq.Detection.Engine.{RuleType, handler, run_rule, implemented, rule_types}
use aegisiq.Detection.Rules
use aegisiq.Detection.Rules.{Library}
use aegisiq.LogStore.{LogStore}
use aegisiq.Models.Alert.{DetectionRule, Description}
use aegisiq.Models.Log.{Log}
use aegisiq.Prelude.{
  ℕ, String, ◌≡◌, refl, inl, inr, Bool, true, false, not, ◌||◌, Option, none, some, ltb,
  if◌then◌else◌, str_eq, truthy, or_else, Bool-cases, Option-cases,
}

pub data Outcome (new_id : Alerts → ℕ) (log : Log) (rule : DetectionRule) (alerts : Alerts)
    (v : Verdict) : Type 0 where
  quiet : v ≡ (none, alerts) → Outcome new_id log rule alerts v
  raised :
      (key : String) (d : Description) (k : Option String)
      → has_active_alert rule.id key (window_start rule log) alerts ≡ false
      → (new_alert (new_id alerts) rule log d k).dedup_key ≡ some key
      → v ≡ create_alert new_id rule log d k alerts
      → Outcome new_id log rule alerts v

module _ (lib : Library) (new_id : Alerts → ℕ) (log : Log) (rule : DetectionRule) (store : LogStore)
    (alerts : Alerts) where
  alert_unless_active-Outcome :
      (key : String) (d : Description) (k : Option String)
      → (new_alert (new_id alerts) rule log d k).dedup_key ≡ some key
      → Outcome new_id log rule alerts
          (alert_unless_active new_id rule log key (window_start rule log) d k alerts)
  unfolding alert_unless_active
  alert_unless_active-Outcome key d k e =
      elim (Bool-cases (has_active_alert rule.id key (window_start rule log) alerts)) [
        | inl active ↦ quiet (rw active refl)
        | inr idle ↦ raised key d k idle e (rw idle refl)
      ]

  -- an early `return None`
  Outcome-if :
      (b : Bool) {v : Verdict}
      → Outcome new_id log rule alerts v
      → Outcome new_id log rule alerts (if b then (none, alerts) else v)
  Outcome-if true o = quiet refl
  Outcome-if false o = o

  -- the guard `log.event_type != … or not log.source_ip`
  Outcome-address :
      (b : Bool) {v : Verdict}
      → ((ip : String) → log.source_ip ≡ some ip → Outcome new_id log rule alerts v)
      → Outcome new_id log rule alerts
          (if b || not (truthy log.source_ip) then (none, alerts) else v)
  Outcome-address true f = quiet refl
  Outcome-address false f = elim (Option-cases log.source_ip) [
    | inl missing ↦ quiet (rw missing refl)
    | inr (ip, e) ↦ Outcome-if (not (truthy log.source_ip)) (f ip e)
  ]

  window_rule-Outcome :
      (n : ℕ) (d : Description) (k : Option String)
      → (new_alert (new_id alerts) rule log d k).dedup_key ≡ some (address log)
      → Outcome new_id log rule alerts (Rules.window_rule new_id n d k log rule alerts)
  unfolding Rules.window_rule
  window_rule-Outcome n d k e =
      Outcome-if (ltb n rule.threshold) (alert_unless_active-Outcome (address log) d k e)

  -- an alert made with no key of its own has the address of the log as its key
  address_rule-Outcome :
      (n : ℕ) (d : Description) (ip : String)
      → log.source_ip ≡ some ip
      → Outcome new_id log rule alerts (Rules.window_rule new_id n d none log rule alerts)
  unfolding new_alert
  address_rule-Outcome n d ip e = window_rule-Outcome n d none (rw e refl)

  privilege-Outcome :
      Outcome new_id log rule alerts (Rules.privilege_escalation new_id log rule store alerts)
  unfolding Rules.privilege_escalation new_alert
  privilege-Outcome =
      Outcome-if (not (str_eq log.event_type "privilege_related"))
        (elim (Option-cases (Rules.matched_pattern log rule)) [
          | inl none_found ↦ quiet (rw none_found refl)
          | inr (pattern, found) ↦ rw found (judge (or_else log.username log.source_ip) pattern)
        ])
    where
      judge :
          (actor : Option String) (pattern : String)
          → Outcome new_id log rule alerts
              (Rules.judge_actor new_id pattern actor log rule store alerts)
      judge none pattern = quiet refl
      judge (some actor) pattern =
          Outcome-if (str_eq actor "")
            (Outcome-if _ (alert_unless_active-Outcome actor _ (some actor) refl))

  files-Outcome : Outcome new_id log rule alerts (Rules.file_integrity new_id log rule store alerts)
  unfolding Rules.file_integrity new_alert
  files-Outcome =
      Outcome-if (not (str_eq log.event_type "file_integrity_change"))
        (judge (Rules.extract_path log))
    where
      judge :
          (path : Option String)
          → Outcome new_id log rule alerts (Rules.judge_path new_id path log rule store alerts)
      judge none = quiet refl
      judge (some path) =
          Outcome-if _ (Outcome-if _ (alert_unless_active-Outcome path _ (some path) refl))

  pattern-Outcome :
      (name : Option String)
      → Outcome new_id log rule alerts (Rules.judge_pattern lib new_id name log rule alerts)
  unfolding Rules.judge_pattern new_alert
  pattern-Outcome none = quiet refl
  pattern-Outcome (some name) = alert_unless_active-Outcome _ _ _ refl

  signature-Outcome :
      (ua : String) (sig : Option String)
      → Outcome new_id log rule alerts (Rules.judge_signature lib new_id ua sig log rule alerts)
  unfolding Rules.judge_signature new_alert
  signature-Outcome ua none = quiet refl
  signature-Outcome ua (some sig) = alert_unless_active-Outcome _ _ _ refl

  user_agent-Outcome :
      (ua : Option String)
      → Outcome new_id log rule alerts (Rules.judge_user_agent lib new_id ua log rule alerts)
  unfolding Rules.judge_user_agent
  user_agent-Outcome none = quiet refl
  user_agent-Outcome (some ua) = signature-Outcome ua _

  handler-Outcome :
      (t : RuleType) → Outcome new_id log rule alerts (handler lib new_id t log rule store alerts)
  unfolding handler Rules.brute_force Rules.port_scan Rules.login_after_failure Rules.web_attack
      Rules.credential_stuffing Rules.suspicious_user_agent new_alert
  handler-Outcome RuleType.brute_force = Outcome-address _ (λ ip e. address_rule-Outcome _ _ ip e)
  handler-Outcome RuleType.port_scan =
      Outcome-address _ (λ ip e. Outcome-if _ (address_rule-Outcome _ _ ip e))
  handler-Outcome RuleType.login_after_failure =
      Outcome-address _ (λ ip e. window_rule-Outcome _ _ _ (rw e refl))
  handler-Outcome RuleType.file_integrity = files-Outcome
  handler-Outcome RuleType.privilege_escalation = privilege-Outcome
  handler-Outcome RuleType.web_attack =
      Outcome-if (not (str_eq log.event_type "web_request"))
        (Outcome-if (str_eq (Rules.extract_targets lib log) "") (pattern-Outcome _))
  handler-Outcome RuleType.credential_stuffing =
      Outcome-address _ (λ ip e. address_rule-Outcome _ _ ip e)
  handler-Outcome RuleType.suspicious_user_agent = user_agent-Outcome _

  -- Every rule of the table, with a handler or not, leaves the alerts as they are or adds one alert
  -- under a key that had no active alert of the rule.
  pub run_rule-Outcome : Outcome new_id log rule alerts (run_rule lib new_id log store rule alerts)
  unfolding run_rule
  run_rule-Outcome = elim (Option-cases (implemented rule.rule_type rule_types)) [
    | inl absent ↦ quiet (rw (absent, run_rule) refl)
    | inr (t, e) ↦ rw (e, run_rule) (handler-Outcome t)
  ]
