-- ===== src/Soar/Histories.antt =====
-- The guard rails over whole histories: alerts, administrators and agents in any order.
use aegisiq.Models.Alert.{Alert, DetectionRule}
use aegisiq.Models.Log.{Log}
use aegisiq.Models.Soar.{SoarActionType, SoarAction}
use aegisiq.Soar.Containment.{execute_now-IsGuarded, revoke_order-IsGuarded, answer-IsGuarded}
use aegisiq.Soar.Decide.{
  record_actions, execute_all, respond_to_alert, target_for, warranted, rule_type_of,
}
use aegisiq.Soar.Guard.{IpLibrary, Settings}
use aegisiq.Soar.Guarded.{IsSafe, Passes, IsGuarded, execute_action-IsGuarded, refuse_reason-IsSafe}
use aegisiq.Soar.Lifecycle.{AgentCall, answer}
use aegisiq.Soar.Orders.{Db}
use aegisiq.Soar.Routes.{execute_now, revoke_order}
use aegisiq.Prelude.{
  ℕ, String, ◌≡◌, refl, inl, inr, Bool, true, false, not, Option, none, List, [], ◌∷◌,
  if◌then◌else◌, or_else, Option-cases, All, All-map,
}

-- Whatever reaches the orders: an alert, the two routes of an administrator, an agent.
pub data Event : Type 0 where
  alerted : Alert → Option DetectionRule → Option Log → ℕ → Event
  execute : (action_id : ℕ) (uid : String) (now : ℕ) (user : String) → Event
  revoke : (order_uid uid : String) (now : ℕ) (user : String) → Event
  agent : AgentCall → Event

module _ (ips : IpLibrary) (settings : Settings) (new_action_id : List SoarAction → ℕ)
    (token : Db → String) (host_of : SoarAction → Option String) where
  module _ (alert : Alert) (rule : Option DetectionRule) (log : Option Log) (now : ℕ) where
    orders-record_actions :
        (kinds : List SoarActionType) (db : Db)
        → (record_actions ips new_action_id token settings alert rule log now kinds db).1.orders
          ≡ db.orders
    unfolding record_actions
    orders-record_actions [] db = refl
    orders-record_actions (kind ∷ kinds) db =
        elim (Option-cases (or_else (target_for kind alert log) none)) [
          | inl no_target ↦ rw (no_target, record_actions) (orders-record_actions kinds db)
          | inr (target, e) ↦ rw (e, record_actions) (orders-record_actions kinds _)
        ]

    execute_all-IsGuarded :
        (actions : List SoarAction) (db : Db)
        → IsGuarded ips settings db
        → IsGuarded ips settings
            (execute_all ips new_action_id token settings alert rule log now actions db)
    unfolding execute_all
    execute_all-IsGuarded [] db g = g
    execute_all-IsGuarded (action ∷ actions) db g =
        execute_all-IsGuarded actions _
          (execute_action-IsGuarded ips settings (token db) now "soar" _ action db g)

    choice-IsGuarded :
        (on run : Bool) (created : List SoarAction) (base recorded ran : Db)
        → IsGuarded ips settings base
        → IsGuarded ips settings recorded
        → IsGuarded ips settings ran
        → IsGuarded ips settings
            (if◌then◌else◌ {A = List SoarAction × Db}
              (not on)
              ([], base)
              (created, if run then ran else recorded)).1
    choice-IsGuarded false run created base recorded ran g h k = g
    choice-IsGuarded true false created base recorded ran g h k = h
    choice-IsGuarded true true created base recorded ran g h k = k

    pub respond-IsGuarded :
        (db : Db)
        → IsGuarded ips settings db
        → IsGuarded ips settings
            (respond_to_alert ips new_action_id token settings alert rule log now db).1
    unfolding respond_to_alert
    respond-IsGuarded db g =
        let recorded = orders-record_actions (warranted alert.severity (rule_type_of rule)) db in
        choice-IsGuarded settings.soar_enabled settings.soar_execute _ db _ _ g (rw recorded g)
          (execute_all-IsGuarded _ _ (rw recorded g))

  pub handle : Event → Db → Db
  handle (alerted alert rule log now) db =
      (respond_to_alert ips new_action_id token settings alert rule log now db).1
  handle (execute id uid now user) db = (execute_now ips settings host_of id uid now user db).1
  handle (revoke order uid now user) db =
      (revoke_order ips settings host_of order uid now user db).1
  handle (agent call) db = answer call db

  pub history : List Event → Db → Db
  history [] db = db
  history (e ∷ events) db = history events (handle e db)

  handle-IsGuarded :
      (e : Event) (db : Db) → IsGuarded ips settings db → IsGuarded ips settings (handle e db)
  unfolding handle
  handle-IsGuarded (alerted alert rule log now) db g = respond-IsGuarded alert rule log now db g
  handle-IsGuarded (execute id uid now user) db g =
      execute_now-IsGuarded ips settings host_of id uid now user db g
  handle-IsGuarded (revoke order uid now user) db g =
      revoke_order-IsGuarded ips settings host_of order uid now user db g
  handle-IsGuarded (agent call) db g = answer-IsGuarded ips settings call db g

  history-IsGuarded :
      (events : List Event) (db : Db)
      → IsGuarded ips settings db
      → IsGuarded ips settings (history events db)
  unfolding history
  history-IsGuarded [] db g = g
  history-IsGuarded (e ∷ events) db g =
      history-IsGuarded events (handle e db) (handle-IsGuarded e db g)

  -- From a table with no orders, after any history of alerts, executions, revocations and agent
  -- calls, every order of the table is safe: one that blocks or unblocks names an address that
  -- `ipaddress` accepts and that is not loopback, link-local, multicast, reserved, unspecified, a
  -- console's own, nor private where the settings forbid it; one that disables or enables names an
  -- account that is neither protected nor on the configured list.
  pub history-IsSafe :
      (events : List Event) (db : Db)
      → db.orders ≡ []
      → All (λ o. IsSafe ips settings o.action o.target) (history events db).orders
  history-IsSafe events db empty =
      All-map (Passes ips settings) (λ o. IsSafe ips settings o.action o.target)
        (λ o. refuse_reason-IsSafe ips settings o.action o.target) (history events db).orders
        (history-IsGuarded events db (rw empty tt))
