-- ===== src/Triage/Trail.antt =====
-- The audit trail that the routes of backend/app/api/routes/alerts.py keep.
use aegisiq.Detection.Alerting.{Alerts}
use aegisiq.Models.Alert.{Alert, AlertStatus, AlertStatusHistory}
use aegisiq.Models.Json.{Fields}
use mathlib.Core.Path.{subst}
use aegisiq.Triage.Routes.{
  Desk, status_eq, find_alert, set_status, change_status, update_alert_status, purge, delete_alert,
  bulk_delete_alerts, payload_ids, among,
}
use aegisiq.Sigma.Condition.{chosen}
use aegisiq.Prelude.{
  ℕ, ◌≡◌, refl, sym, ap, ◌∙◌, inl, inr, Bool, true, false, not, Option, some, List, [], ◌∷◌, map,
  arith, ◌==◌, if◌then◌else◌, Bool-cases, Option-cases, where_rows, first,
}

-- the rows of the history of one alert
unfoldable pub trail : ℕ → List AlertStatusHistory → List AlertStatusHistory
trail n history = where_rows (λ h. h.alert_id == n) history

-- The rows, newest first, lead from one status to another: the newest has the second as its new one, each
-- row's previous status is the new one of the row before it, and the oldest row's is the first; no row is a
-- change to the same status, and without a row the two are one.
abbrev pub Chained : AlertStatus → AlertStatus → List AlertStatusHistory → Type 0
Chained start status [] = start ≡ status
Chained start status (h ∷ hs) =
    (h.new_status ≡ status)
    × ((p : AlertStatus) × ((h.previous_status ≡ some p)
          × ((status_eq p status ≡ false) × Chained start p hs)))

-- Each alert was there at the start, and its trail leads from its status then to its status now.
abbrev pub IsTrailed : Desk → Desk → Type 0
IsTrailed begun desk =
    (n : ℕ) (a : Alert)
    → find_alert n desk.alerts ≡ some a
    → (b : Alert) × ((find_alert n begun.alerts ≡ some b)
        × Chained b.status a.status (trail n desk.history))

-- A call of one of the routes.
pub data Call : Type 0 where
  updating : ℕ → AlertStatus → ℕ → Call
  deleting : ℕ → Call
  bulk_deleting : Fields → Call

unfoldable pub run_call : Call → Desk → Desk
unfolding update_alert_status delete_alert bulk_delete_alerts
run_call (updating n status user_id) desk = (update_alert_status n status user_id desk).1
run_call (deleting n) desk = (delete_alert n desk).1
run_call (bulk_deleting payload) desk = (bulk_delete_alerts payload desk).1

unfoldable pub run_calls : List Call → Desk → Desk
unfolding run_call
run_calls [] desk = desk
run_calls (c ∷ cs) desk = run_calls cs (run_call c desk)

-- the alert of another id is as it was
find-other :
    (n m : ℕ) (status : AlertStatus) (alerts : Alerts)
    → (m == n) ≡ false
    → find_alert m (map (set_status n status) alerts) ≡ find_alert m alerts
unfolding find_alert set_status first
find-other n m status [] h = refl
find-other n m status (a ∷ alerts) h = ground (arith, h, find-other n m status alerts h)

find-same :
    (n : ℕ) (status : AlertStatus) (alerts : Alerts) (a : Alert)
    → find_alert n (map (set_status n status) alerts) ≡ some a
    → a.status ≡ status
unfolding find_alert set_status first
find-same n status [] a h = absurd (ground (arith, h))
find-same n status (b ∷ alerts) a h = ground (arith, h, find-same n status alerts a)

recorded-Chained :
    (n : ℕ) (status previous start : AlertStatus) (user_id : Option ℕ) (a : Alert)
    (history : List AlertStatusHistory)
    → status_eq previous status ≡ false
    → a.status ≡ status
    → Chained start previous (trail n history)
    → Chained start a.status (
        trail n (
          record {
            alert_id = n;
            previous_status = some previous;
            new_status = status;
            changed_by = user_id;
          }
          ∷ history))
unfolding trail where_rows
recorded-Chained n status previous start user_id a history changed is_new before_it =
    let here : (n == n) ≡ true = ground arith in
    rw (here, if◌then◌else◌)
      (sym is_new, (previous, (refl, (ap (status_eq previous) is_new ∙ changed, before_it))))

unrecorded-Chained :
    (n m : ℕ) (row : AlertStatusHistory) (start status : AlertStatus)
    (history : List AlertStatusHistory)
    → row.alert_id ≡ n
    → (m == n) ≡ false
    → Chained start status (trail m history)
    → Chained start status (trail m (row ∷ history))
unfolding trail where_rows
unrecorded-Chained n m row start status history of_n other c =
    let elsewhere : (row.alert_id == m) ≡ false = ground (arith, of_n, other) in
    rw (elsewhere, if◌then◌else◌) c

change-IsTrailed :
    (n : ℕ) (status : AlertStatus) (user_id : ℕ) (alert : Alert) (begun desk : Desk)
    → find_alert n desk.alerts ≡ some alert
    → IsTrailed begun desk
    → IsTrailed begun (change_status n status user_id alert desk)
unfolding change_status
change-IsTrailed n status user_id alert begun desk found t =
    elim (Bool-cases (status_eq alert.status status)) [
      | inl same ↦ rw (same, change_status, if◌then◌else◌) t
      | inr changed ↦
          rw (changed, change_status, if◌then◌else◌)
            (λ m a h. elim (Bool-cases (m == n)) [
              | inl same ↦
                  let is_n : n ≡ m = ground (arith, same) in
                  let (b, (was, c)) = t n alert found in
                  subst
                    (λ k.
                      find_alert k (map (set_status n status) desk.alerts) ≡ some a
                      → (b : Alert) × ((find_alert k begun.alerts ≡ some b)
                          × Chained b.status a.status (
                              trail k (
                                record {
                                  alert_id = n;
                                  previous_status = some alert.status;
                                  new_status = status;
                                  changed_by = some user_id;
                                }
                                ∷ desk.history))))
                    is_n
                    (λ h'. (
                      b,
                      (
                        was,
                        recorded-Chained n status alert.status b.status (some user_id) a
                            desk.history changed (find-same n status desk.alerts a h') c,
                      ),
                    ))
                    h
              | inr other ↦
                  let (b, (was, c)) = t m a (sym (find-other n m status desk.alerts other) ∙ h) in
                  (b, (was, unrecorded-Chained n m _ b.status a.status desk.history refl other c))
            ])
    ]

find-purged :
    (chosen : ℕ → Bool) (n : ℕ) (alerts : Alerts) (a : Alert)
    → find_alert n (where_rows (λ b. not (chosen b.id)) alerts) ≡ some a
    → (chosen n ≡ false) × (find_alert n alerts ≡ some a)
unfolding find_alert first where_rows
find-purged chosen n [] a h = absurd (ground (arith, h))
find-purged chosen n (b ∷ alerts) a h = elim (Bool-cases (b.id == n)) [
  | inl same ↦
      let b_is_n : b.id ≡ n = ground (arith, same) in
      let alike : chosen b.id ≡ chosen n = ap chosen b_is_n in
      ground (arith, h, same, alike, find-purged chosen n alerts a)
  | inr other ↦ ground (arith, h, other, find-purged chosen n alerts a)
]

pub trail-purged :
    (chosen : ℕ → Bool) (n : ℕ) (history : List AlertStatusHistory)
    → chosen n ≡ false
    → trail n (where_rows (λ h. not (chosen h.alert_id)) history) ≡ trail n history
unfolding trail where_rows
trail-purged chosen n [] h = refl
trail-purged chosen n (r ∷ history) h = elim (Bool-cases (r.alert_id == n)) [
  | inl same ↦
      let r_is_n : r.alert_id ≡ n = ground (arith, same) in
      let alike : chosen r.alert_id ≡ chosen n = ap chosen r_is_n in
      ground (arith, h, same, alike, trail-purged chosen n history h)
  | inr other ↦ ground (arith, other, trail-purged chosen n history h)
]

purge-IsTrailed :
    (chosen : ℕ → Bool) (begun desk : Desk)
    → IsTrailed begun desk
    → IsTrailed begun (purge chosen desk)
unfolding purge
purge-IsTrailed chosen begun desk t n a h =
    let (kept, found) = find-purged chosen n desk.alerts a h in
    rw (trail-purged chosen n desk.history kept) (t n a found)

run_call-IsTrailed :
    (c : Call) (begun desk : Desk) → IsTrailed begun desk → IsTrailed begun (run_call c desk)
unfolding run_call update_alert_status delete_alert bulk_delete_alerts
run_call-IsTrailed (updating n status user_id) begun desk t =
    elim (Option-cases (find_alert n desk.alerts)) [
      | inl gone ↦ rw (gone, run_call, update_alert_status) t
      | inr (alert, found) ↦
          rw (found, run_call, update_alert_status)
            (change-IsTrailed n status user_id alert begun desk found t)
    ]
run_call-IsTrailed (deleting n) begun desk t = elim (Option-cases (find_alert n desk.alerts)) [
  | inl gone ↦ rw (gone, run_call, delete_alert) t
  | inr (alert, found) ↦
      rw (found, run_call, delete_alert) (purge-IsTrailed (λ m. m == n) begun desk t)
]
run_call-IsTrailed (bulk_deleting payload) begun desk t =
    elim (Option-cases (payload_ids payload)) [
      | inl bad ↦ rw (bad, run_call, bulk_delete_alerts) t
      | inr ([], empty) ↦ rw (empty, run_call, bulk_delete_alerts) t
      | inr (i ∷ is, read) ↦
          rw (read, run_call, bulk_delete_alerts) (purge-IsTrailed (among (i ∷ is)) begun desk t)
    ]

run_calls-IsTrailed :
    (cs : List Call) (begun desk : Desk)
    → IsTrailed begun desk
    → IsTrailed begun (run_calls cs desk)
unfolding run_calls
run_calls-IsTrailed [] begun desk t = t
run_calls-IsTrailed (c ∷ cs) begun desk t =
    run_calls-IsTrailed cs begun (run_call c desk) (run_call-IsTrailed c begun desk t)

-- From a desk with no history, after any calls of the triage and deletion routes, each alert that is
-- left was there at the start, and its audit trail explains its status: the oldest row starts from its first
-- status, each other row from where the row before it ended, and the newest leads to its status now; no row is a
-- change to the same status, and an alert without a row has the status that it had.
pub triage-IsTrailed :
    (cs : List Call) (desk : Desk) → desk.history ≡ [] → IsTrailed desk (run_calls cs desk)
unfolding trail where_rows
triage-IsTrailed cs desk empty =
    run_calls-IsTrailed cs desk desk λ n a found. (a, (found, rw empty refl))
