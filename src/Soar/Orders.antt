-- ===== src/Soar/Orders.antt =====
-- The orders of backend/app/soar/executor.py, over the tables of agents, actions and orders. An
-- order table is in the order of creation. `now`, the token of a new order and the host name of
-- the alert's log are arguments; a commit succeeds.
use aegisiq.Models.Log.{seconds}
use aegisiq.Models.Soar.{
  SoarActionType, SoarActionStatus, SoarAction, OrderStatus, EndpointAgent, SoarOrder,
}
use aegisiq.Soar.Guard.{IpLibrary, Settings, Refusal, refuse_reason}
use aegisiq.Prelude.{
  ℕ, ◌+◌, String, Option, none, some, List, [], ◌∷◌, ◌++◌, map, ◌==◌, if◌then◌else◌, str_eq, opt_eq,
  or_else, where_rows, first,
}

pub record Db : Type 0 where
  pub agents : List EndpointAgent
  pub actions : List SoarAction
  pub orders : List SoarOrder

-- ACTION_TO_AGENT
unfoldable pub action_to_agent : SoarActionType → Option String
action_to_agent SoarActionType.block_ip = some "block_ip"
action_to_agent SoarActionType.disable_account = some "disable_user"
action_to_agent SoarActionType.isolate_endpoint = none
action_to_agent SoarActionType.notify_analyst = none

-- INVERSE_ACTION
unfoldable pub inverse_action : String → Option String
inverse_action action =
    if str_eq action "block_ip"
    then some "unblock_ip"
    else if str_eq action "disable_user"
    then some "enable_user"
    else none

unfoldable pub sole : List EndpointAgent → Option EndpointAgent
sole [] = none
sole (a ∷ []) = some a
sole (a ∷ b ∷ l) = none

-- the two lookups of `_agent_for` by a host name
unfoldable pub agent_named : String → List EndpointAgent → Option EndpointAgent
agent_named host enabled = elim (first (λ a. opt_eq a.hostname (some host)) enabled) [
  | some a ↦ some a
  | none ↦ first (λ a. str_eq a.endpoint_id host) enabled
]

unfoldable pub agent_by_host : Option String → List EndpointAgent → Option EndpointAgent
unfolding agent_named
agent_by_host none enabled = none
agent_by_host (some host) enabled = agent_named host enabled

-- `_agent_for`
unfoldable pub agent_for : List EndpointAgent → Option String → Option EndpointAgent
unfolding agent_by_host sole
agent_for agents hostname =
    let enabled = where_rows (λ a. a.enabled) agents in
    elim (agent_by_host (or_else hostname none) enabled) [ some a ↦ some a | none ↦ sole enabled ]

unfoldable pub new_order :
    String → String → ℕ → ℕ → String → String → Option ℕ → Option ℕ → String → SoarOrder
new_order uid endpoint now ttl action target soar_action alert issued_by = record {
  order_uid = uid;
  endpoint_id = endpoint;
  action = action;
  target = target;
  status = OrderStatus.queued;
  soar_action_id = soar_action;
  alert_id = alert;
  issued_by = issued_by;
  created_at = now;
  delivered_at = none;
  completed_at = none;
  expires_at = some (now + seconds ttl);
  output = none;
}

-- `queue_order`
unfoldable pub queue_order : SoarOrder → Db → Db
queue_order order db = record db { orders = db.orders ++ order ∷ [] }

-- the row of an action, with a new status
unfoldable pub set_status : ℕ → SoarActionStatus → SoarAction → SoarAction
set_status id status a = if a.id == id then record a { status = status } else a

-- `_mark`
unfoldable pub mark : ℕ → SoarActionStatus → Db → Db
mark id status db = record db { actions = map (set_status id status) db.actions }

pub data Verdict : Type 0 where
  executed : (order_uid endpoint_id : String) → Verdict
  refused : Refusal → Verdict

module _ (ips : IpLibrary) (settings : Settings) where
  -- `execute_action` once the guard rails have let the action through
  unfoldable pub dispatch :
      String → ℕ → String → String → SoarAction → Option EndpointAgent → Db → Verdict × Db
  unfolding new_order queue_order mark
  dispatch uid now issued_by verb action none db =
      (refused Refusal.no_agent, mark action.id SoarActionStatus.simulated db)
  dispatch uid now issued_by verb action (some agent) db =
      let order =
        new_order uid agent.endpoint_id now settings.soar_order_ttl_seconds verb action.target
          (some action.id) action.alert_id issued_by in
      (
        executed uid agent.endpoint_id,
        mark action.id SoarActionStatus.pending (queue_order order db),
      )

  unfoldable pub execute_verb :
      String → ℕ → String → Option String → SoarAction → Option String → Db → Verdict × Db
  unfolding dispatch
  execute_verb uid now issued_by hostname action none db = (refused Refusal.no_agent_verb, db)
  execute_verb uid now issued_by hostname action (some verb) db =
      elim (refuse_reason ips settings verb action.target) [
        | some refusal ↦ (refused refusal, mark action.id SoarActionStatus.simulated db)
        | none ↦ dispatch uid now issued_by verb action (agent_for db.agents hostname) db
      ]

  -- `execute_action`
  unfoldable pub execute_action :
      String → ℕ → String → Option String → SoarAction → Db → Verdict × Db
  unfolding execute_verb action_to_agent
  execute_action uid now issued_by hostname action db =
      execute_verb uid now issued_by hostname action (action_to_agent action.action_type) db

  -- `revoke` behind its two lookups
  unfoldable pub undo :
      String
      → ℕ
      → String
      → SoarOrder
      → Option String
      → Option EndpointAgent
      → Db
      → Option SoarOrder × Db
  unfolding new_order queue_order
  undo uid now issued_by order none agent db = (none, db)
  undo uid now issued_by order (some inverse) none db = (none, db)
  undo uid now issued_by order (some inverse) (some agent) db =
      let o =
        new_order uid agent.endpoint_id now settings.soar_order_ttl_seconds inverse order.target
          none none issued_by in
      (some o, queue_order o db)

  -- `revoke`
  unfoldable pub revoke : String → ℕ → String → SoarOrder → Db → Option SoarOrder × Db
  revoke uid now issued_by order db =
      undo uid now issued_by order (inverse_action order.action)
        (first (λ (a : EndpointAgent). str_eq a.endpoint_id order.endpoint_id) db.agents) db
