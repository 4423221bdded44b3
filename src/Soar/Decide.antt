-- ===== src/Soar/Decide.antt =====
-- backend/app/soar/engine.py: which actions an alert warrants, and their dispatch. The key of a new
-- row and the token of a new order are parameters. The broadcast of the actions and the webhook
-- are left out: they change no table.
use aegisiq.Models.Alert.{Alert, DetectionRule}
use aegisiq.Models.Log.{Log, Severity, warrants_containment}
use aegisiq.Models.Soar.{SoarActionType, SoarActionStatus, SoarAction}
use aegisiq.Soar.Guard.{IpLibrary, Settings}
use aegisiq.Soar.Orders.{Db, execute_action}
use aegisiq.Prelude.{
  ℕ, String, not, ◌||◌, Option, none, some, List, [], ◌∷◌, if◌then◌else◌, str_eq, or_else,
}

-- `_PLAYBOOKS.get(rule_type, [NOTIFY_ANALYST])`
unfoldable pub playbook : Option String → List SoarActionType
playbook none = SoarActionType.notify_analyst ∷ []
playbook (some rule_type) =
    if str_eq rule_type "brute_force" || str_eq rule_type "port_scan"
    then SoarActionType.block_ip ∷ []
    else if str_eq rule_type "login_after_failure"
    then SoarActionType.disable_account ∷ SoarActionType.block_ip ∷ []
    else if str_eq rule_type "privilege_escalation"
    then SoarActionType.disable_account ∷ []
    else if str_eq rule_type "file_integrity"
    then SoarActionType.isolate_endpoint ∷ []
    else SoarActionType.notify_analyst ∷ []

abbrev pub of_log : (Log → Option String) → Option Log → Option String
of_log f none = none
of_log f (some log) = f log

-- `_target_for`
unfoldable pub target_for : SoarActionType → Alert → Option Log → Option String
target_for SoarActionType.block_ip alert log = alert.source_ip
target_for SoarActionType.disable_account alert log =
    or_else (of_log (λ l. l.username) log) alert.dedup_key
target_for SoarActionType.isolate_endpoint alert log =
    or_else (of_log (λ l. l.hostname) log) alert.dedup_key
target_for SoarActionType.notify_analyst alert log =
    or_else alert.dedup_key (or_else alert.source_ip (some "unspecified"))

unfoldable pub rule_type_of : Option DetectionRule → Option String
rule_type_of none = none
rule_type_of (some rule) = some rule.rule_type

unfoldable pub rule_name_of : Option DetectionRule → Option String
rule_name_of none = none
rule_name_of (some rule) = some rule.name

-- the action types that the alert's severity and rule call for
unfoldable pub warranted : Severity → Option String → List SoarActionType
warranted severity rule_type =
    if warrants_containment severity then playbook rule_type else SoarActionType.notify_analyst ∷ []

unfoldable pub initial_status : Settings → SoarActionStatus
initial_status settings =
    if settings.soar_execute then SoarActionStatus.pending else SoarActionStatus.simulated

module _ (ips : IpLibrary) (new_action_id : List SoarAction → ℕ) (token : Db → String)
    (settings : Settings) (alert : Alert) (rule : Option DetectionRule) (log : Option Log)
    (now : ℕ) where
  unfoldable pub new_action : SoarActionType → String → Db → SoarAction
  new_action kind target db = record {
    id = new_action_id db.actions;
    timestamp = alert.timestamp;
    action_type = kind;
    target = target;
    alert_id = some alert.id;
    rule_name = rule_name_of rule;
    status = initial_status settings;
    execution_requested = settings.soar_execute;
  }

  -- the loop over the action types: a type with no target is skipped
  unfoldable pub record_actions : List SoarActionType → Db → List SoarAction × Db
  unfolding new_action
  record_actions [] db = ([], db)
  record_actions (kind ∷ kinds) db = elim (or_else (target_for kind alert log) none) [
    | none ↦ record_actions kinds db
    | some target ↦
        let action = new_action kind target db in
        let (created, db') = record_actions kinds (record db { actions = action ∷ db.actions }) in
        (action ∷ created, db')
  ]

  -- the loop that hands each created action to the executor
  unfoldable pub execute_all : List SoarAction → Db → Db
  execute_all [] db = db
  execute_all (action ∷ actions) db =
      execute_all actions
        (execute_action ips settings (token db) now "soar" (of_log (λ l. l.hostname) log) action
          db).1

  -- `respond_to_alert`
  unfoldable pub respond_to_alert : Db → List SoarAction × Db
  respond_to_alert db =
      if not settings.soar_enabled
      then ([], db)
      else let (created, db') = record_actions (warranted alert.severity (rule_type_of rule)) db in
        (created, if settings.soar_execute then execute_all created db' else db')
