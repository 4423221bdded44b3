-- ===== src/Soar/Agents.antt =====
-- The agent-facing side of backend/app/soar/executor.py: `collect_orders` and `record_result`.
use aegisiq.Models.Soar.{SoarActionStatus, OrderStatus, EndpointAgent, SoarOrder}
use aegisiq.Soar.Orders.{Db, mark}
use aegisiq.Prelude.{
  ℕ, zero, suc, String, Bool, true, false, not, ◌&&◌, Option, none, some, List, [], ◌∷◌, map, ltb,
  ◌==◌, if◌then◌else◌, str_eq, take_chars, first,
}

-- one entry of the list that the agent is handed
pub record Payload : Type 0 where
  pub id : String
  pub action : String
  pub target : String
  pub alert_id : Option ℕ
  pub issued_at : ℕ

abbrev pub is_queued : OrderStatus → Bool
is_queued OrderStatus.queued = true
is_queued _ = false

-- the filter of `collect_orders`
unfoldable pub is_pending : String → SoarOrder → Bool
is_pending endpoint o = str_eq o.endpoint_id endpoint && is_queued o.status

unfoldable pub is_expired : ℕ → SoarOrder → Bool
is_expired now o = elim o.expires_at [ none ↦ false | some t ↦ ltb t now ]

unfoldable pub to_payload : SoarOrder → Payload
to_payload o = record {
  id = o.order_uid;
  action = o.action;
  target = o.target;
  alert_id = o.alert_id;
  issued_at = o.created_at;
}

unfoldable pub retire : ℕ → SoarOrder → SoarOrder
retire now o = record o {
  status = OrderStatus.expired;
  completed_at = some now;
  output = some "not collected before the order expired";
}

unfoldable pub deliver : ℕ → SoarOrder → SoarOrder
deliver now o = record o { status = OrderStatus.delivered; delivered_at = some now }

-- The loop of `collect_orders` over the rows, in the order of creation, with the number of
-- pending rows that the limit of the query still allows.
unfoldable pub collect_rows : String → ℕ → ℕ → List SoarOrder → List SoarOrder × List Payload
collect_rows endpoint now limit [] = ([], [])
collect_rows endpoint now zero (o ∷ rows) = (o ∷ rows, [])
collect_rows endpoint now (suc limit) (o ∷ rows) = elim (is_pending endpoint o) [
  | false ↦ let (rest, payload) = collect_rows endpoint now (suc limit) rows in (o ∷ rest, payload)
  | true ↦
      let (rest, payload) = collect_rows endpoint now limit rows in
      if is_expired now o
      then (retire now o ∷ rest, payload)
      else (deliver now o ∷ rest, to_payload o ∷ payload)
]

abbrev pub order_limit : ℕ
order_limit = 50

unfoldable pub seen : String → ℕ → Option String → EndpointAgent → EndpointAgent
seen endpoint now source_ip a =
    if str_eq a.endpoint_id endpoint
    then record a { last_seen_at = some now; last_seen_ip = source_ip }
    else a

-- `collect_orders`; endpoint ids are unique, so the row that is touched is the row that was found
unfoldable pub collect_orders :
    String → Option String → ℕ → Db → Option EndpointAgent × (List Payload × Db)
unfolding seen
collect_orders endpoint source_ip now db =
    elim (first (λ (a : EndpointAgent). str_eq a.endpoint_id endpoint) db.agents) [
      | none ↦ (none, ([], db))
      | some agent ↦ if not agent.enabled then (some agent, ([], db)) else (
        some (record agent { last_seen_at = some now; last_seen_ip = source_ip }),
        (
          (collect_rows endpoint now order_limit db.orders).1,
          record db {
            agents = map (seen endpoint now source_ip) db.agents;
            orders = (collect_rows endpoint now order_limit db.orders).0;
          },
        ),
      )
    ]

unfoldable pub outcome : Bool → OrderStatus
outcome true = OrderStatus.succeeded
outcome false = OrderStatus.failed

unfoldable pub action_outcome : Bool → SoarActionStatus
action_outcome true = SoarActionStatus.executed
action_outcome false = SoarActionStatus.failed

unfoldable pub finish : Bool → String → ℕ → SoarOrder → SoarOrder
unfolding outcome
finish success output now o = record o {
  status = outcome success;
  completed_at = some now;
  output = some (take_chars 2048 output);
}

unfoldable pub is_order : String → String → SoarOrder → Bool
is_order endpoint uid o = str_eq o.order_uid uid && str_eq o.endpoint_id endpoint

-- `if order.soar_action_id:` the action of that id takes the outcome
unfoldable pub reflect : Bool → Option ℕ → Db → Db
unfolding action_outcome
reflect success none db = db
reflect success (some id) db = if id == 0 then db else mark id (action_outcome success) db

-- `record_result`; order ids are unique
unfoldable pub record_result : String → String → Bool → String → ℕ → Db → Option SoarOrder × Db
unfolding finish reflect
record_result endpoint uid success output now db = elim (first (is_order endpoint uid) db.orders) [
  | none ↦ (none, db)
  | some order ↦ (
    some (finish success output now order),
    reflect success order.soar_action_id (record db {
      orders =
          map (λ o. if is_order endpoint uid o then finish success output now o else o) db.orders;
    }),
  )
]
