-- ===== src/Soar/Delivery.antt =====
-- What one poll of an agent hands out, against the query that the source states, and what the next
-- poll finds.
use aegisiq.Models.Soar.{SoarOrder, EndpointAgent}
use aegisiq.Soar.Agents.{
  is_pending, is_expired, retire, deliver, to_payload, collect_rows, collect_orders,
}
use aegisiq.Soar.Orders.{Db}
use aegisiq.Prelude.{
  ℕ, zero, suc, ◌≤◌, String, ◌≡◌, refl, ap, ◌⊎◌, inl, inr, true, false, not, Option, none, some,
  List, [], ◌∷◌, map, arith, if◌then◌else◌, str_eq, Bool-cases, length, take, drop, length-take-le,
  where_rows, first, length-where_rows-le, length-map,
}

-- The queue of an endpoint: its rows that wait, in the order of creation.
abbrev pub queue : String → List SoarOrder → List SoarOrder
queue endpoint rows = where_rows (is_pending endpoint) rows

-- What the query and its loop state: the first `limit` of the queue, without those that expired.
abbrev pub due : String → ℕ → ℕ → List SoarOrder → List SoarOrder
due endpoint now limit rows =
    where_rows (λ o. not (is_expired now o)) (take limit (queue endpoint rows))

retired_not_pending :
    (endpoint : String) (now : ℕ) (o : SoarOrder) → is_pending endpoint (retire now o) ≡ false
unfolding is_pending retire
retired_not_pending endpoint now o = ground arith

delivered_not_pending :
    (endpoint : String) (now : ℕ) (o : SoarOrder) → is_pending endpoint (deliver now o) ≡ false
unfolding is_pending deliver
delivered_not_pending endpoint now o = ground arith

module _ (endpoint : String) (now : ℕ) where
  -- what is handed out, and what stays in the queue
  collect_rows-due :
      (limit : ℕ) (rows : List SoarOrder)
      → ((collect_rows endpoint now limit rows).1 ≡ map to_payload (due endpoint now limit rows))
        × (queue endpoint (collect_rows endpoint now limit rows).0
            ≡ drop limit (queue endpoint rows))
  unfolding collect_rows where_rows
  collect_rows-due zero [] = (refl, refl)
  collect_rows-due (suc limit) [] = (refl, refl)
  collect_rows-due zero (o ∷ rows) = (refl, refl)
  collect_rows-due (suc limit) (o ∷ rows) = elim (Bool-cases (is_pending endpoint o)) [
    | inl waiting ↦
        let (handed, left) = collect_rows-due limit rows in
        rw (waiting, collect_rows)
          (elim (Bool-cases (is_expired now o)) [
            | inl late ↦
                rw (late, if◌then◌else◌) (handed, rw (retired_not_pending endpoint now o) left)
            | inr live ↦
                rw (live, if◌then◌else◌)
                  (ap (◌∷◌ (to_payload o)) handed, rw (delivered_not_pending endpoint now o) left)
          ])
    | inr other ↦
        let (handed, left) = collect_rows-due (suc limit) rows in
        rw (other, collect_rows) (rw other (handed, left))
  ]

abbrev pub agent_of : String → Db → Option EndpointAgent
agent_of endpoint db = first (λ (a : EndpointAgent). str_eq a.endpoint_id endpoint) db.agents

length-due :
    (endpoint : String) (now limit : ℕ) (rows : List SoarOrder)
    → length (map to_payload (due endpoint now limit rows)) ≤ limit
length-due endpoint now limit rows =
    let a = length-map (due endpoint now limit rows) to_payload in
    let b = length-where_rows-le (λ o. not (is_expired now o)) (take limit (queue endpoint rows)) in
    omega (arith, a, b, length-take-le limit (queue endpoint rows))

module _ (endpoint : String) (source_ip : Option String) (now : ℕ) (db : Db) where
  -- A poll by an enrolled and enabled endpoint is handed exactly the first fifty of its queued
  -- orders, in the order of creation, less those that have expired; at most fifty entries; and what
  -- is queued afterwards is exactly what stood behind the first fifty.
  pub collect_orders-due :
      (agent : EndpointAgent)
      → agent_of endpoint db ≡ some agent
      → agent.enabled ≡ true
      → ((collect_orders endpoint source_ip now db).1.0
          ≡ map to_payload (due endpoint now 50 db.orders))
        × (length (collect_orders endpoint source_ip now db).1.0 ≤ 50)
        × (queue endpoint (collect_orders endpoint source_ip now db).1.1.orders
            ≡ drop 50 (queue endpoint db.orders))
  unfolding collect_orders
  collect_orders-due agent known on =
      let (handed, left) = collect_rows-due endpoint now 50 db.orders in
      rw (known, collect_orders, on)
        (handed, rw handed (length-due endpoint now 50 db.orders), left)

  -- An endpoint that is unknown or disabled is handed nothing, and no table changes.
  pub collect_orders-refused :
      (agent_of endpoint db ≡ none)
        ⊎ ((agent : EndpointAgent) × (agent_of endpoint db ≡ some agent) × (agent.enabled ≡ false))
      → (collect_orders endpoint source_ip now db).1 ≡ ([], db)
  unfolding collect_orders
  collect_orders-refused (inl unknown) = rw (unknown, collect_orders) refl
  collect_orders-refused (inr (agent, known, off)) = rw (known, collect_orders, off) refl
