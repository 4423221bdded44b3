-- ===== src/Ingestion/Histories.antt =====
-- Whole histories of submitted logs: what backend/app/ingestion/service.py keeps of the tables.
use aegisiq.Detection.Engine.{evaluate}
use aegisiq.Detection.Dedup.Unique.{AtMostOneOpen, evaluate-AtMostOneOpen}
use aegisiq.Ingestion.Normalizer.{Submission, NormalizedEvent}
use aegisiq.Ingestion.Service.{
  World, State, Outcome, unknown_agent, database_error, no_window, accepted, ingest_log, ingest_at,
  ingest_event, resolve_agent, process_normalized_event, respond_all, respond_to, store_of,
  store_log, touch_agent, rule_of, log_of, alert_of, reply,
}
use aegisiq.Models.Agent.{Agent}
use aegisiq.Models.Alert.{Alert}
use aegisiq.Models.Log.{Log}
use aegisiq.Soar.Guarded.{IsSafe, Passes, IsGuarded, refuse_reason-IsSafe}
use aegisiq.Soar.Histories.{respond-IsGuarded}
use aegisiq.Soar.Orders.{Db}
use aegisiq.Prelude.{
  ℕ, String, ◌≡◌, inl, inr, Option, none, some, List, [], ◌∷◌, arith, Option-cases, count_if, All,
  All-map,
}

-- A submission: the clock, the agent it names, and the fields.
pub record Arrival : Type 0 where
  pub now : ℕ
  pub agent_id : Option String
  pub submission : Submission

-- the tables after an outcome
unfoldable pub settle : State → Outcome → State
settle s unknown_agent = s
settle s database_error = s
settle s (no_window s') = s'
settle s (accepted response s') = s'

module _ (w : World) where
  unfoldable pub ingest_all : List Arrival → State → State
  unfolding settle
  ingest_all [] s = s
  ingest_all (a ∷ arrivals) s =
      ingest_all arrivals (settle s (ingest_log w a.now a.agent_id a.submission s))

  abbrev IsGood : State → Type 0
  IsGood s = AtMostOneOpen s.alerts × IsGuarded w.ips w.settings s.soar

  respond_to-IsGuarded :
      (now : ℕ) (s : State) (alert : Option Alert) (db : Db)
      → IsGuarded w.ips w.settings db
      → IsGuarded w.ips w.settings (respond_to w now s alert db)
  unfolding respond_to
  respond_to-IsGuarded now s none db g = g
  respond_to-IsGuarded now s (some alert) db g =
      respond-IsGuarded w.ips w.settings w.new_action_id w.token (λ action. none) alert
        (rule_of alert s.rules) (log_of alert s.logs) now db g

  respond_all-IsGuarded :
      (now : ℕ) (s : State) (ids : List ℕ) (db : Db)
      → IsGuarded w.ips w.settings db
      → IsGuarded w.ips w.settings (respond_all w now s ids db)
  unfolding respond_all
  respond_all-IsGuarded now s [] db g = g
  respond_all-IsGuarded now s (id ∷ ids) db g =
      respond_all-IsGuarded now s ids (respond_to w now s (alert_of id s.alerts) db)
        (respond_to-IsGuarded now s (alert_of id s.alerts) db g)

  process-IsGood :
      (now : ℕ) (log : Log) (s : State) → IsGood s → IsGood (process_normalized_event w now log s).1
  unfolding process_normalized_event
  process-IsGood now log s (one, g) =
      let found = evaluate w.library w.new_alert_id log (store_of w s) s.rules s.alerts in
      (
        evaluate-AtMostOneOpen w.library w.new_alert_id log (store_of w s) s.rules s.alerts one,
        respond_all-IsGuarded now (record s { alerts = found.1 }) found.0 s.soar g,
      )

  ingest_at-IsGood :
      (now : ℕ) (timestamp : Option ℕ) (agent : Option Agent) (event : NormalizedEvent) (s : State)
      → IsGood s
      → IsGood (settle s (ingest_at w now timestamp agent event s))
  unfolding settle ingest_at ingest_event reply
  ingest_at-IsGood now none agent event s good = elim (Option-cases w.external) [
    | inl e ↦ rw (e, ingest_at) good
    | inr (x, e) ↦ rw (e, ingest_at) good
  ]
  ingest_at-IsGood now (some t) agent event s good =
      let kept = store_log w t agent event s in
      process-IsGood now kept.0.0
        (record s { logs = kept.1; agents = touch_agent now agent s.agents }) good

  ingest-IsGood :
      (now : ℕ) (agent_id : Option String) (submission : Submission) (s : State)
      → IsGood s
      → IsGood (settle s (ingest_log w now agent_id submission s))
  unfolding ingest_log settle
  ingest-IsGood now agent_id submission s good =
      elim (Option-cases (resolve_agent agent_id s.agents)) [
        | inl unknown ↦ rw (unknown, ingest_log) good
        | inr (agent, found) ↦ rw (found, ingest_log) (ingest_at-IsGood now _ agent _ s good)
      ]

  ingest_all-IsGood :
      (arrivals : List Arrival) (s : State) → IsGood s → IsGood (ingest_all arrivals s)
  unfolding ingest_all
  ingest_all-IsGood [] s good = good
  ingest_all-IsGood (a ∷ arrivals) s good =
      ingest_all-IsGood arrivals _ (ingest-IsGood a.now a.agent_id a.submission s good)

  -- From tables with no alerts and no orders, after any logs have been submitted, whatever they say and
  -- in whatever order, the table of alerts has at most one open alert for each rule and key, and every
  -- order that the responses have queued is safe: it names no address and no account that the guard
  -- rails protect.
  pub ingest_all-IsSafe :
      (arrivals : List Arrival) (s : State)
      → s.alerts ≡ []
      → s.soar.orders ≡ []
      → AtMostOneOpen (ingest_all arrivals s).alerts
        × All (λ o. IsSafe w.ips w.settings o.action o.target) (ingest_all arrivals s).soar.orders
  unfolding count_if
  ingest_all-IsSafe arrivals s no_alerts no_orders =
      let start : IsGood s = (rw no_alerts (λ rule_id key. omega arith), rw no_orders tt) in
      let (one, g) = ingest_all-IsGood arrivals s start in
      (
        one,
        All-map (Passes w.ips w.settings) (λ o. IsSafe w.ips w.settings o.action o.target)
            (λ o. refuse_reason-IsSafe w.ips w.settings o.action o.target)
            (ingest_all arrivals s).soar.orders g,
      )
