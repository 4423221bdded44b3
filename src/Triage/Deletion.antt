-- ===== src/Triage/Deletion.antt =====
-- What `delete_alert` of backend/app/api/routes/alerts.py removes, and what it leaves.
use aegisiq.Detection.Alerting.{Alerts}
use aegisiq.Models.Alert.{Alert, AlertStatusHistory}
use aegisiq.Models.Soar.{SoarAction}
use aegisiq.Triage.Routes.{Desk, find_alert, purge, refers, delete_alert}
use aegisiq.Triage.Trail.{trail, trail-purged}
use aegisiq.Prelude.{
  ℕ, ◌≡◌, refl, false, not, none, some, List, [], ◌∷◌, arith, ◌==◌, where_rows, first, any,
}

find-gone :
    (n : ℕ) (alerts : Alerts) → find_alert n (where_rows (λ a. not (a.id == n)) alerts) ≡ none
unfolding find_alert first where_rows
find-gone n [] = refl
find-gone n (a ∷ alerts) = ground (arith, find-gone n alerts)

find-left :
    (n m : ℕ) (alerts : Alerts)
    → (m == n) ≡ false
    → find_alert m (where_rows (λ a. not (a.id == n)) alerts) ≡ find_alert m alerts
unfolding find_alert first where_rows
find-left n m [] h = refl
find-left n m (a ∷ alerts) h = ground (arith, h, find-left n m alerts h)

trail-gone :
    (n : ℕ) (rows : List AlertStatusHistory)
    → trail n (where_rows (λ h. not (h.alert_id == n)) rows) ≡ []
unfolding trail where_rows
trail-gone n [] = refl
trail-gone n (h ∷ rows) = ground (arith, trail-gone n rows)

actions-gone :
    (n : ℕ) (actions : List SoarAction)
    → any
        (λ a. refers (λ m. m == n) a.alert_id)
        (where_rows (λ a. not (refers (λ m. m == n) a.alert_id)) actions)
      ≡ false
unfolding any where_rows
actions-gone n [] = refl
actions-gone n (a ∷ actions) = ground (arith, actions-gone n actions)

-- Deleting an alert of the table removes it with its trail, and no action refers to it afterwards. Every
-- other alert stays with its trail. The orders are left as they are, those for the alert among them.
pub delete_alert_lem :
    (n : ℕ) (alert : Alert) (desk : Desk)
    → find_alert n desk.alerts ≡ some alert
    → (find_alert n (delete_alert n desk).1.alerts ≡ none)
      × (trail n (delete_alert n desk).1.history ≡ [])
      × (any (λ a. refers (λ m. m == n) a.alert_id) (delete_alert n desk).1.actions ≡ false)
      × ((delete_alert n desk).1.orders ≡ desk.orders)
      × ((m : ℕ)
          → (m == n) ≡ false
          → (find_alert m (delete_alert n desk).1.alerts ≡ find_alert m desk.alerts)
            × (trail m (delete_alert n desk).1.history ≡ trail m desk.history))
unfolding delete_alert purge
delete_alert_lem n alert desk found =
    rw (found, delete_alert)
      (
        find-gone n desk.alerts,
        trail-gone n desk.history,
        actions-gone n desk.actions,
        refl,
        λ m other.
            (find-left n m desk.alerts other, trail-purged (λ k. k == n) m desk.history other),
      )
