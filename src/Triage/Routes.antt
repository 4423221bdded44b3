-- ===== src/Triage/Routes.antt =====
-- The routes of backend/app/api/routes/alerts.py that change tables. Who may call a route is
-- Auth.Session; the broadcast of a change is left out.
use Prim.Native.Char.{code}
use aegisiq.Detection.Alerting.{Alerts}
use aegisiq.Models.Alert.{
  Alert, AlertStatus, AlertStatusHistory, new, investigating, resolved, false_positive,
}
use aegisiq.Models.Json.{Json, boolean, number, arr, Items, nil, cons, Fields, get}
use aegisiq.Models.Soar.{SoarAction, SoarOrder}
use aegisiq.Prelude.{
  ℕ, ◌+◌, ◌-◌, ◌*◌, String, Bool, true, false, not, ◌&&◌, ◌||◌, Option, none, some, List, [], ◌∷◌,
  map, leb, ◌==◌, if◌then◌else◌, where_rows, first, count_if,
}

-- The tables; the rows of the history newest first.
pub record Desk : Type 0 where
  pub alerts : Alerts
  pub history : List AlertStatusHistory
  pub actions : List SoarAction
  pub orders : List SoarOrder

unfoldable pub status_eq : AlertStatus → AlertStatus → Bool
status_eq new new = true
status_eq investigating investigating = true
status_eq resolved resolved = true
status_eq false_positive false_positive = true
status_eq _ _ = false

-- `db.query(Alert).filter(Alert.id == alert_id).first()`
unfoldable pub find_alert : ℕ → Alerts → Option Alert
find_alert n alerts = first (λ (a : Alert). a.id == n) alerts

unfoldable pub set_status : ℕ → AlertStatus → Alert → Alert
set_status n status a = if a.id == n then record a { status = status } else a

-- Whether the route found the alert, and the tables.
abbrev pub Reply : Type 0
Reply = Bool × Desk

unfoldable pub change_status : ℕ → AlertStatus → ℕ → Alert → Desk → Desk
unfolding set_status status_eq
change_status n status user_id alert desk =
    if status_eq alert.status status then desk else record desk {
      alerts = map (set_status n status) desk.alerts;
      history =
          record {
            alert_id = n;
            previous_status = some alert.status;
            new_status = status;
            changed_by = some user_id;
          }
          ∷ desk.history;
    }

-- `update_alert_status`
unfoldable pub update_alert_status : ℕ → AlertStatus → ℕ → Desk → Reply
unfolding find_alert change_status
update_alert_status n status user_id desk = elim (find_alert n desk.alerts) [
  | none ↦ (false, desk)
  | some alert ↦ (true, change_status n status user_id alert desk)
]

-- a nullable reference to one of the rows
unfoldable pub refers : (ℕ → Bool) → Option ℕ → Bool
refers chosen none = false
refers chosen (some n) = chosen n

-- the three deletions, of what belongs to the chosen alerts
unfoldable pub purge : (ℕ → Bool) → Desk → Desk
unfolding refers
purge chosen desk = record desk {
  history = where_rows (λ h. not (chosen h.alert_id)) desk.history;
  actions = where_rows (λ a. not (refers chosen a.alert_id)) desk.actions;
  alerts = where_rows (λ a. not (chosen a.id)) desk.alerts;
}

-- `delete_alert`
unfoldable pub delete_alert : ℕ → Desk → Reply
unfolding find_alert purge
delete_alert n desk = elim (find_alert n desk.alerts) [
  | none ↦ (false, desk)
  | some alert ↦ (true, purge (λ m. m == n) desk)
]

-- the text of an integer: its value, or nothing for a negative one, which no row has as its id
unfoldable pub digits_value : ℕ → String → Option ℕ
digits_value n String.[] = some n
digits_value n (String.◌∷◌ c s) =
    let later = digits_value (n * 10 + (code c - 48)) s in
    if leb 48 (code c) && leb (code c) 57 then later else none

unfoldable pub integer : String → Option (Option ℕ)
unfolding digits_value
integer String.[] = none
integer (String.◌∷◌ c s) =
    if code c == 45
    then elim (digits_value 0 s) [ none ↦ none | some n ↦ some none ]
    else elim (digits_value 0 (String.◌∷◌ c s)) [ none ↦ none | some n ↦ some (some n) ]

-- `isinstance(i, int)`, which holds of truth values too
unfoldable pub as_int : Json → Option (Option ℕ)
unfolding integer
as_int (number numeral) = integer numeral
as_int (boolean b) = some (some (if b then 1 else 0))
as_int _ = none

unfoldable pub as_ints : Items → Option (List (Option ℕ))
unfolding as_int
as_ints nil = some []
as_ints (cons x xs) = elim (as_int x) [
  | none ↦ none
  | some i ↦ elim (as_ints xs) [ none ↦ none | some is ↦ some (i ∷ is) ]
]

-- the ids of the payload; none is the 400
unfoldable pub payload_ids : Fields → Option (List (Option ℕ))
unfolding as_ints
payload_ids payload = elim (get "ids" payload) [ some (arr xs) ↦ as_ints xs | _ ↦ none ]

-- `id in ids`
unfoldable pub among : List (Option ℕ) → ℕ → Bool
among [] n = false
among (none ∷ ids) n = among ids n
among (some m ∷ ids) n = m == n || among ids n

-- `bulk_delete_alerts`: the number deleted, or none for the 400
unfoldable pub bulk_delete_alerts : Fields → Desk → Option ℕ × Desk
unfolding payload_ids among purge
bulk_delete_alerts payload desk = elim (payload_ids payload) [
  | none ↦ (none, desk)
  | some [] ↦ (some 0, desk)
  | some (i ∷ is) ↦ (
    some (count_if (λ (a : Alert). among (i ∷ is) a.id) desk.alerts),
    purge (among (i ∷ is)) desk,
  )
]
