-- ===== src/Soar/Lifecycle.antt =====
-- The states of an order: what collecting and reporting may do to one, and that no operation takes
-- one back.
use aegisiq.Models.Soar.{OrderStatus, SoarOrder, EndpointAgent}
use aegisiq.Soar.Agents.{
  is_pending, is_expired, retire, deliver, collect_rows, finish, collect_orders, is_order,
  order_limit, record_result, reflect, outcome,
}
use aegisiq.Soar.Orders.{Db, mark}
use aegisiq.Prelude.{
  ℕ, zero, suc, ◌≤◌, String, ◌≡◌, refl, ◌∙◌, inl, inr, Bool, true, false, not, Option, none, some,
  List, [], ◌∷◌, map, arith, if◌then◌else◌, str_eq, str_eq_iff, Bool-cases, Option-cases, first,
}

-- One table of orders after another: each row stays, or goes through one step.
pub data Step (now : ℕ) (o : SoarOrder) (o' : SoarOrder) : Type 0 where
  stays : o' ≡ o → Step now o o'
  expires :
      o.status ≡ OrderStatus.queued → is_expired now o ≡ true → o' ≡ retire now o → Step now o o'
  goes_out :
      o.status ≡ OrderStatus.queued → is_expired now o ≡ false → o' ≡ deliver now o → Step now o o'
  reported : (success : Bool) (output : String) → o' ≡ finish success output now o → Step now o o'

abbrev pub Rows : ℕ → List SoarOrder → List SoarOrder → Type 0
Rows now [] [] = Unit
Rows now [] (o' ∷ rows') = ⊥
Rows now (o ∷ rows) [] = ⊥
Rows now (o ∷ rows) (o' ∷ rows') = Step now o o' × Rows now rows rows'

Rows-refl : (now : ℕ) (rows : List SoarOrder) → Rows now rows rows
Rows-refl now [] = tt
Rows-refl now (o ∷ rows) = (stays refl, Rows-refl now rows)

is_pending-queued :
    (endpoint : String) (o : SoarOrder)
    → is_pending endpoint o ≡ true
    → (o.status ≡ OrderStatus.queued) × (o.endpoint_id ≡ endpoint)
unfolding is_pending
is_pending-queued endpoint o h = ground (arith, str_eq_iff o.endpoint_id endpoint)

module _ (endpoint : String) (now : ℕ) where
  collect_rows-Rows :
      (limit : ℕ) (rows : List SoarOrder) → Rows now rows (collect_rows endpoint now limit rows).0
  unfolding collect_rows
  collect_rows-Rows limit [] = tt
  collect_rows-Rows zero (o ∷ rows) = (stays refl, Rows-refl now rows)
  collect_rows-Rows (suc limit) (o ∷ rows) = elim (Bool-cases (is_pending endpoint o)) [
    | inl waiting ↦
        rw (waiting, collect_rows)
          (elim (Bool-cases (is_expired now o)) [
            | inl late ↦
                rw (late, if◌then◌else◌)
                  (
                    expires (is_pending-queued endpoint o waiting).0 late refl,
                    collect_rows-Rows limit rows,
                  )
            | inr live ↦
                rw (live, if◌then◌else◌)
                  (
                    goes_out (is_pending-queued endpoint o waiting).0 live refl,
                    collect_rows-Rows limit rows,
                  )
          ])
    | inr other ↦ rw (other, collect_rows) (stays refl, collect_rows-Rows (suc limit) rows)
  ]

orders-reflect :
    (success : Bool) (id : Option ℕ) (db : Db) → (reflect success id db).orders ≡ db.orders
unfolding reflect mark
orders-reflect success none db = refl
orders-reflect success (some id) db = ground arith

report-Rows :
    (endpoint uid : String) (success : Bool) (output : String) (now : ℕ) (rows : List SoarOrder)
    → Rows now rows
        (map (λ o. if is_order endpoint uid o then finish success output now o else o) rows)
report-Rows endpoint uid success output now [] = tt
report-Rows endpoint uid success output now (o ∷ rows) = (
  elim (Bool-cases (is_order endpoint uid o)) [
    | inl its ↦ rw its (reported success output refl)
    | inr not_its ↦ rw not_its (stays refl)
  ],
  report-Rows endpoint uid success output now rows,
)

collect_orders-Rows :
    (endpoint : String) (ip : Option String) (now : ℕ) (db : Db)
    → Rows now db.orders (collect_orders endpoint ip now db).1.1.orders
unfolding collect_orders
collect_orders-Rows endpoint ip now db =
    elim (Option-cases (first (λ (a : EndpointAgent). str_eq a.endpoint_id endpoint) db.agents)) [
      | inl unknown ↦ rw (unknown, collect_orders) (Rows-refl now db.orders)
      | inr (agent, found) ↦
          rw (found, collect_orders)
            (elim (Bool-cases (not agent.enabled)) [
              | inl off ↦ rw off (Rows-refl now db.orders)
              | inr on ↦ rw on (collect_rows-Rows endpoint now order_limit db.orders)
            ])
    ]

record_result-Rows :
    (endpoint uid : String) (success : Bool) (output : String) (now : ℕ) (db : Db)
    → Rows now db.orders (record_result endpoint uid success output now db).1.orders
unfolding record_result
record_result-Rows endpoint uid success output now db =
    elim (Option-cases (first (is_order endpoint uid) db.orders)) [
      | inl unknown ↦ rw (unknown, record_result) (Rows-refl now db.orders)
      | inr (order, found) ↦
          rw (found, record_result, orders-reflect)
            (report-Rows endpoint uid success output now db.orders)
    ]

-- How far an order has come: waiting, out of the queue, reported.
abbrev pub stage : OrderStatus → ℕ
stage OrderStatus.queued = 0
stage OrderStatus.delivered = 1
stage OrderStatus.expired = 1
stage OrderStatus.cancelled = 1
stage OrderStatus.succeeded = 2
stage OrderStatus.failed = 2

-- The same order, no earlier in its life.
pub record Later (o o' : SoarOrder) : Type 0 where
  pub order_uid : o'.order_uid ≡ o.order_uid
  pub endpoint_id : o'.endpoint_id ≡ o.endpoint_id
  pub action : o'.action ≡ o.action
  pub target : o'.target ≡ o.target
  pub stage : stage o.status ≤ stage o'.status

abbrev pub AllLater : List SoarOrder → List SoarOrder → Type 0
AllLater [] [] = Unit
AllLater [] (o' ∷ rows') = ⊥
AllLater (o ∷ rows) [] = ⊥
AllLater (o ∷ rows) (o' ∷ rows') = Later o o' × AllLater rows rows'

stage-outcome : (success : Bool) (s : OrderStatus) → stage s ≤ stage (outcome success)
unfolding outcome
stage-outcome success s = ground arith

Later-trans : {a b c : SoarOrder} → Later a b → Later b c → Later a c
Later-trans f g = record {
  order_uid = g.order_uid ∙ f.order_uid;
  endpoint_id = g.endpoint_id ∙ f.endpoint_id;
  action = g.action ∙ f.action;
  target = g.target ∙ f.target;
  stage = omega (arith, f.stage, g.stage);
}

Step-Later : (now : ℕ) (o o' : SoarOrder) → Step now o o' → Later o o'
unfolding retire deliver finish
Step-Later now o o' (stays e) = ground (arith, e)
Step-Later now o o' (expires q late e) = ground (arith, e, q)
Step-Later now o o' (goes_out q live e) = ground (arith, e, q)
Step-Later now o o' (reported success output e) = rw e (record {
  order_uid = refl;
  endpoint_id = refl;
  action = refl;
  target = refl;
  stage = stage-outcome success o.status;
})

Rows-AllLater : (now : ℕ) (rows rows' : List SoarOrder) → Rows now rows rows' → AllLater rows rows'
Rows-AllLater now [] [] h = tt
Rows-AllLater now [] (o' ∷ rows') h = h
Rows-AllLater now (o ∷ rows) [] h = h
Rows-AllLater now (o ∷ rows) (o' ∷ rows') h =
    (Step-Later now o o' h.0, Rows-AllLater now rows rows' h.1)

AllLater-trans : (a b c : List SoarOrder) → AllLater a b → AllLater b c → AllLater a c
AllLater-trans [] [] c h k = k
AllLater-trans [] (y ∷ b) c h k = absurd h
AllLater-trans (x ∷ a) [] c h k = absurd h
AllLater-trans (x ∷ a) (y ∷ b) [] h k = k
AllLater-trans (x ∷ a) (y ∷ b) (z ∷ c) h k = (Later-trans h.0 k.0, AllLater-trans a b c h.1 k.1)

AllLater-refl : (a : List SoarOrder) → AllLater a a
AllLater-refl [] = tt
AllLater-refl (x ∷ a) = (
  record {
    order_uid = refl;
    endpoint_id = refl;
    action = refl;
    target = refl;
    stage = omega arith;
  },
  AllLater-refl a,
)

-- What an agent can ask of the SIEM.
pub data AgentCall : Type 0 where
  poll : (endpoint : String) (source_ip : Option String) (now : ℕ) → AgentCall
  report : (endpoint uid : String) (success : Bool) (output : String) (now : ℕ) → AgentCall

pub answer : AgentCall → Db → Db
answer (poll endpoint ip now) db = (collect_orders endpoint ip now db).1.1
answer (report endpoint uid success output now) db =
    (record_result endpoint uid success output now db).1

pub answer_all : List AgentCall → Db → Db
answer_all [] db = db
answer_all (call ∷ calls) db = answer_all calls (answer call db)

pub answer-AllLater : (call : AgentCall) (db : Db) → AllLater db.orders (answer call db).orders
unfolding answer
answer-AllLater (poll endpoint ip now) db =
    Rows-AllLater now _ _ (collect_orders-Rows endpoint ip now db)
answer-AllLater (report endpoint uid success output now) db =
    Rows-AllLater now _ _ (record_result-Rows endpoint uid success output now db)

-- Whatever agents poll and report, in any order, the table keeps its orders, row by row: the id, the
-- endpoint, the action and the target of an order stay, and it is never taken back to an earlier
-- stage. So an order that has left the queue, by delivery or by expiry, is never queued again.
pub answer_all-AllLater :
    (calls : List AgentCall) (db : Db) → AllLater db.orders (answer_all calls db).orders
unfolding answer_all
answer_all-AllLater [] db = AllLater-refl db.orders
answer_all-AllLater (call ∷ calls) db =
    AllLater-trans _ _ _ (answer-AllLater call db) (answer_all-AllLater calls (answer call db))
