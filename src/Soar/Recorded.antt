-- ===== src/Soar/Recorded.antt =====
-- With SOAR_EXECUTE off, backend/app/soar/engine.py only records what it would do.
use aegisiq.Models.Alert.{Alert, DetectionRule}
use aegisiq.Models.Log.{Log}
use aegisiq.Models.Soar.{SoarActionType, SoarActionStatus, SoarAction}
use aegisiq.Soar.Decide.{
  initial_status, new_action, record_actions, respond_to_alert, target_for, warranted, rule_type_of,
}
use aegisiq.Soar.Guard.{IpLibrary, Settings}
use aegisiq.Soar.Orders.{Db}
use mathlib.Core.List.{reverse, reverse-append, append_assoc}
use aegisiq.Prelude.{
  ℕ, String, ◌≡◌, refl, sym, ap, ◌∙◌, inl, inr, Bool, true, false, not, Option, none, some, List,
  [], ◌∷◌, ◌++◌, arith, if◌then◌else◌, or_else, Option-cases, All,
}

-- What recording leaves: the agents and orders as they were, and the created actions on top of the
-- table, each for the alert and with the status that the settings give.
pub record Recorded (settings : Settings) (alert : Alert) (db : Db) (created : List SoarAction)
    (db' : Db) : Type 0 where
  pub agents : db'.agents ≡ db.agents
  pub orders : db'.orders ≡ db.orders
  pub actions : db'.actions ≡ reverse created ++ db.actions
  pub of_alert :
      All
        (λ (a : SoarAction). (a.status ≡ initial_status settings) × (a.alert_id ≡ some alert.id))
        created

actions-snoc :
    (a : SoarAction) (created rows : List SoarAction)
    → reverse created ++ a ∷ rows ≡ reverse (a ∷ created) ++ rows
actions-snoc a created rows = sym (
    ap (λ r. r ++ rows) (reverse-append (a ∷ []) created)
    ∙ append_assoc (reverse created) (a ∷ []) rows)

module _ (ips : IpLibrary) (new_action_id : List SoarAction → ℕ) (token : Db → String)
    (settings : Settings) (alert : Alert) (rule : Option DetectionRule) (log : Option Log)
    (now : ℕ) where
  record_actions-Recorded :
      (kinds : List SoarActionType) (db : Db)
      → Recorded settings alert db
          (record_actions ips new_action_id token settings alert rule log now kinds db).0
          (record_actions ips new_action_id token settings alert rule log now kinds db).1
  unfolding record_actions new_action
  record_actions-Recorded [] db = record {
    agents = refl;
    orders = refl;
    actions = refl;
    of_alert = tt;
  }
  record_actions-Recorded (kind ∷ kinds) db =
      elim (Option-cases (or_else (target_for kind alert log) none)) [
        | inl no_target ↦ rw (no_target, record_actions) (record_actions-Recorded kinds db)
        | inr (target, e) ↦
            let action =
              new_action ips new_action_id token settings alert rule log now kind target db in
            let below =
              record_actions-Recorded kinds (record db { actions = action ∷ db.actions }) in
            rw (e, record_actions)
              (record {
                agents = below.agents;
                orders = below.orders;
                actions =
                    below.actions
                    ∙ actions-snoc action
                        (record_actions ips new_action_id token settings alert rule log now kinds
                          (record db { actions = action ∷ db.actions })).0
                        db.actions;
                of_alert = ((refl, refl), below.of_alert);
              })
      ]

  -- With execution off, an alert leaves the agents and the orders as they are; whatever it creates is
  -- an action of the alert with the status SIMULATED, and the table of actions gains exactly those.
  pub respond_to_alert-Recorded :
      (db : Db)
      → settings.soar_execute ≡ false
      → Recorded settings alert db
          (respond_to_alert ips new_action_id token settings alert rule log now db).0
          (respond_to_alert ips new_action_id token settings alert rule log now db).1
        × (initial_status settings ≡ SoarActionStatus.simulated)
  unfolding respond_to_alert initial_status
  respond_to_alert-Recorded db off = (
    held settings.soar_enabled settings.soar_execute _ _ _ off
        (record_actions-Recorded (warranted alert.severity (rule_type_of rule)) db),
    rw off refl,
  )
    where
      held :
          (on run : Bool) (created : List SoarAction) (db' ran : Db)
          → run ≡ false
          → Recorded settings alert db created db'
          → Recorded settings alert db
              (if◌then◌else◌ {A = List SoarAction × Db}
                (not on)
                ([], db)
                (created, if run then ran else db')).0
              (if◌then◌else◌ {A = List SoarAction × Db}
                (not on)
                ([], db)
                (created, if run then ran else db')).1
      held false run created db' ran off' r = record {
        agents = refl;
        orders = refl;
        actions = refl;
        of_alert = tt;
      }
      held true false created db' ran off' r = r
      held true true created db' ran off' r = absurd (ground (arith, off'))
