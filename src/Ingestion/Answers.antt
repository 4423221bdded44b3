-- ===== src/Ingestion/Answers.antt =====
-- What the answer of `ingest_log` of backend/app/ingestion/service.py says of the tables.
use aegisiq.Detection.Added.{IsFresh, evaluate-Added}
use mathlib.Core.List.{reverse}
use mathlib.Core.Path.{subst}
use aegisiq.Detection.Alerting.{Alerts}
use aegisiq.Ingestion.Normalizer.{Submission, NormalizedEvent}
use aegisiq.Ingestion.Service.{
  World, State, Response, Outcome, unknown_agent, database_error, no_window, accepted, ingest_log,
  ingest_at, ingest_event, resolve_agent, process_normalized_event, store_of, store_log,
  touch_agent, reply,
}
use aegisiq.Models.Agent.{Agent}
use aegisiq.Models.Log.{Log}
use aegisiq.Prelude.{
  ℕ, String, ◌≡◌, refl, inl, inr, Option, none, some, List, ◌∷◌, ◌++◌, map, Option-cases,
  where_rows, All, All-map,
}

-- What an answer says when logs are rows: one row was added to the logs, and the answer has its id and its type;
-- the alerts grew by those whose ids the answer lists, in the order of creation, each of that row.
pub record Reports (s : State) (r : Response) (s' : State) : Type 0 where
  pub log : Log
  pub added : Alerts
  pub stored : s'.logs ≡ log ∷ s.logs
  pub same_id : r.id ≡ log.id
  pub same_type : r.event_type ≡ log.event_type
  pub grown : s'.alerts ≡ added ++ s.alerts
  pub listed : r.alert_ids ≡ reverse (map (λ a. a.id) added)
  pub linked : All (λ a. a.log_id ≡ r.id) added

abbrev pub Told : State → Outcome → Type 0
Told s unknown_agent = Unit
Told s database_error = Unit
Told s (no_window s') = Unit
Told s (accepted r s') = Reports s r s'

module _ (w : World) (now : ℕ) (agent : Option Agent) (event : NormalizedEvent) (s : State) where
  -- the engine's run on the stored log
  told_lem :
      (kept : (Log × Option String) × List Log)
      → kept.1 ≡ kept.0.0 ∷ s.logs
      → Told s (reply w now agent kept s)
  unfolding reply process_normalized_event
  told_lem ((log, external_id), logs) one_more =
      let store = store_of w (record s { logs = logs; agents = touch_agent now agent s.agents }) in
      let (added, grown, listed, fresh) =
        evaluate-Added w.library w.new_alert_id log store s.rules s.alerts in
      record {
        log = log;
        added = added;
        stored = one_more;
        same_id = refl;
        same_type = refl;
        grown = grown;
        listed = listed;
        linked =
            All-map (IsFresh log (where_rows (λ rule. rule.enabled) s.rules))
              (λ a. a.log_id ≡ log.id) (λ a h. h.log_id) added fresh;
      }

  store_told :
      (t : ℕ)
      → w.external ≡ none
      → (store_log w t agent event s).1 ≡ (store_log w t agent event s).0.0 ∷ s.logs
  unfolding store_log
  store_told t internal = rw (internal, store_log) refl

  ingest_at-Told : (t : Option ℕ) → w.external ≡ none → Told s (ingest_at w now t agent event s)
  unfolding ingest_at ingest_event
  ingest_at-Told none internal = rw (internal, ingest_at) tt
  ingest_at-Told (some t) internal = told_lem (store_log w t agent event s) (store_told t internal)

module _ (w : World) where
  ingest_log-Told :
      (now : ℕ) (agent_id : Option String) (submission : Submission) (s : State)
      → w.external ≡ none
      → Told s (ingest_log w now agent_id submission s)
  unfolding ingest_log
  ingest_log-Told now agent_id submission s internal =
      elim (Option-cases (resolve_agent agent_id s.agents)) [
        | inl unknown ↦ rw (unknown, ingest_log) tt
        | inr (agent, found) ↦ rw (found, ingest_log) (ingest_at-Told w now agent _ s _ internal)
      ]

  -- When logs are rows and a submission is accepted, the answer is true: the logs grew by one row, whose
  -- id and type the answer has, and the alerts by exactly those that it lists, in the order of
  -- creation, each of which refers to that row.
  pub ingest_log-Reports :
      (now : ℕ) (agent_id : Option String) (submission : Submission) (s s' : State) (r : Response)
      → w.external ≡ none
      → ingest_log w now agent_id submission s ≡ accepted r s'
      → Reports s r s'
  ingest_log-Reports now agent_id submission s s' r internal h =
      subst (Told s) h (ingest_log-Told now agent_id submission s internal)
