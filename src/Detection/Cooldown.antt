-- ===== src/Detection/Cooldown.antt =====
-- When backend/app/detection/rules/brute_force.py fires, and how long it stays quiet afterwards.
use aegisiq.Detection.Alerting.{
  Alerts, address, is_active_for, has_active_alert, create_alert, alert_unless_active, window_start,
  Verdict, new_alert,
}
use aegisiq.Detection.Dedup.Unique.{open_for}
use aegisiq.Detection.Rules.{
  window_rule, brute_force, port_scan, credential_stuffing, login_after_failure,
}
use aegisiq.LogStore.Relational.{sqlalchemy_store, is_event}
use aegisiq.Models.Alert.{DetectionRule, Description, Alert}
use aegisiq.Models.Log.{Log}
use aegisiq.LogStore.{LogStore}
use aegisiq.Prelude.{
  ℕ, ◌≤◌, String, ◌≡◌, refl, ◌↔◌, inl, inr, Bool, true, false, Option, none, some, List, [], ◌∷◌,
  arith, if◌then◌else◌, str_eq, str_eq_iff, str_eq_refl, opt_eq_refl, Option-cases, is_some, length,
  where_rows, any, All, length-where_rows,
}

-- No alert of the table is active for the key.
abbrev pub NoneActive : ℕ → String → ℕ → Alerts → Type 0
NoneActive rule_id key start alerts = All (λ a. is_active_for rule_id key start a ≡ false) alerts

has_active_alert_iff :
    (r : ℕ) (k : String) (w : ℕ) (alerts : Alerts)
    → (has_active_alert r k w alerts ≡ false) ↔ NoneActive r k w alerts
unfolding has_active_alert any
has_active_alert_iff r k w [] = ((λ _. tt), (λ _. refl))
has_active_alert_iff r k w (a ∷ alerts) = ground (arith, has_active_alert_iff r k w alerts)

-- What makes the rule fire: a failed logon from an address with, in the window that ends at the
-- log, at least as many failed logons as the threshold, and no active alert of the rule.
pub record Fires (log : Log) (rule : DetectionRule) (rows : List Log) (alerts : Alerts)
    : Type 0 where
  pub event : log.event_type ≡ "authentication_failure"
  pub ip : String
  pub from_address : log.source_ip ≡ some ip
  pub not_empty : str_eq ip "" ≡ false
  pub enough :
      rule.threshold
      ≤ length (
          where_rows
            (is_event "authentication_failure" (some ip) (window_start rule log) log.timestamp)
            rows)
  pub idle : NoneActive rule.id ip (window_start rule log) alerts

-- An open alert of the rule and key is active, whatever the window.
open-has_active_alert :
    (r : ℕ) (k : String) (w : ℕ) (alerts : Alerts)
    → any (open_for r k) alerts ≡ true
    → has_active_alert r k w alerts ≡ true
unfolding has_active_alert any is_active_for open_for
open-has_active_alert r k w [] h = absurd (ground arith)
open-has_active_alert r k w (a ∷ alerts) h = ground (arith, open-has_active_alert r k w alerts)

quiet_if :
    (b : Bool) {alerts : Alerts} {v : Verdict}
    → v ≡ (none, alerts)
    → (if b then (none, alerts) else v) ≡ (none, alerts)
quiet_if true e = refl
quiet_if false e = e

module _ (new_id : Alerts → ℕ) (log : Log) (rule : DetectionRule) where
  window_rule-active :
      (n : ℕ) (d : Description) (k : Option String) (alerts : Alerts)
      → has_active_alert rule.id (address log) (window_start rule log) alerts ≡ true
      → window_rule new_id n d k log rule alerts ≡ (none, alerts)
  unfolding window_rule alert_unless_active
  window_rule-active n d k alerts h = ground (arith, h)

  module _ (rows : List Log) (alerts : Alerts) where
    fires :
        Fires log rule rows alerts
        → is_some (brute_force new_id log rule (sqlalchemy_store rows) alerts).0 ≡ true
    unfolding brute_force window_rule alert_unless_active sqlalchemy_store create_alert is_some
    fires f =
        let start = window_start rule log in
        let counted =
          length-where_rows (is_event "authentication_failure" (some f.ip) start log.timestamp)
            rows in
        let idle = (has_active_alert_iff rule.id f.ip start alerts).1 f.idle in
        ground (
          arith,
          counted,
          idle,
          f.from_address,
          f.not_empty,
          f.event,
          f.enough,
          str_eq_refl "authentication_failure",
        )

    fired :
        is_some (brute_force new_id log rule (sqlalchemy_store rows) alerts).0 ≡ true
        → Fires log rule rows alerts
    unfolding brute_force window_rule alert_unless_active sqlalchemy_store create_alert is_some
    fired h = elim (Option-cases log.source_ip) [
      | inl missing ↦ absurd (ground (arith, h, missing))
      | inr (ip, e) ↦
          let start = window_start rule log in
          let counted =
            length-where_rows (is_event "authentication_failure" (some ip) start log.timestamp)
              rows in
          record {
            event = ground (arith, h, e, str_eq_iff log.event_type "authentication_failure");
            ip = ip;
            from_address = e;
            not_empty = ground (arith, h, e);
            enough = ground (arith, h, e, counted);
            idle = (has_active_alert_iff rule.id ip start alerts).0 (ground (arith, h, e));
          }
    ]

    -- Over the relational event store, the brute-force rule creates an alert exactly when `Fires`
    -- holds: the event is a failed logon from an address, the window that ends at the log, both
    -- ends included, has at least the threshold of failed logons from it, and no alert of the rule
    -- is active for the address.
    pub brute_force_iff :
        (is_some (brute_force new_id log rule (sqlalchemy_store rows) alerts).0 ≡ true)
        ↔ Fires log rule rows alerts
    brute_force_iff = (fired, fires)

  -- While an alert of the rule is open for an address, no further event from that address makes the
  -- brute-force, port-scan, credential-stuffing or login-after-failure rule create another alert,
  -- however old the open one is and whatever the event store counts; the table is left as it is.
  pub open_alert_silences :
      (ip : String) (store : LogStore) (alerts : Alerts)
      → log.source_ip ≡ some ip
      → any (open_for rule.id ip) alerts ≡ true
      → (brute_force new_id log rule store alerts ≡ (none, alerts))
        × (port_scan new_id log rule store alerts ≡ (none, alerts))
        × (credential_stuffing new_id log rule store alerts ≡ (none, alerts))
        × (login_after_failure new_id log rule store alerts ≡ (none, alerts))
  unfolding brute_force port_scan credential_stuffing login_after_failure
  open_alert_silences ip store alerts e opened =
      let active = open-has_active_alert rule.id ip (window_start rule log) alerts opened in
      let silent : (n : ℕ) (d : Description) (k : Option String)
          → window_rule new_id n d k log rule alerts ≡ (none, alerts) =
        λ n d k. window_rule-active n d k alerts (rw e active) in
      (
        quiet_if _ (silent _ _ _),
        quiet_if _ (quiet_if _ (silent _ _ _)),
        quiet_if _ (silent _ _ _),
        quiet_if _ (silent _ _ _),
      )

  -- The alert that the brute-force rule creates is an open one of the rule and the address.
  pub brute_force_opens :
      (ip : String) (store : LogStore) (alerts alerts' : Alerts) (a : Alert)
      → log.source_ip ≡ some ip
      → brute_force new_id log rule store alerts ≡ (some a, alerts')
      → any (open_for rule.id ip) alerts' ≡ true
  unfolding brute_force window_rule alert_unless_active create_alert new_alert any open_for
  brute_force_opens ip store alerts alerts' a e h =
      ground (arith, e, h, opt_eq_refl (some ip), opt_eq_refl log.source_ip)
