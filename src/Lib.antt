-- ===== src/Lib.antt =====
-- A verification library for AegisIQ, a SIEM with automated response (backend/app).
--
-- A log that is ingested is evaluated by the detection engine, which runs the enabled rules against
-- the event store and adds alerts. An alert that is severe enough makes the response engine record
-- actions and queue orders, which the response agents poll and report on. Users sign in with a
-- password and a second factor, and act with tokens.
--
-- Parts and files:
--   Prelude            shared types, Boolean tests, lists and texts
--   Models             the rows of backend/app/models: Log, Alert, Soar, User, and JSON columns
--   LogStore           backend/app/storage: the counting primitives (Defs) over the table of logs
--                      (Relational), and what they count (Counts)
--   Detection.Alerting backend/app/detection/alerting.py
--   Detection.Rules    backend/app/detection/rules, a child for each group of handlers
--   Detection.Engine   backend/app/detection/engine.py: the table of handlers and `evaluate`
--   Detection.Dedup, Detection.Added, Detection.Cooldown   proofs about the engine and its rules
--   Soar.Guard         `_refuse_reason` of backend/app/soar/executor.py
--   Soar.Orders        `execute_action`, `queue_order`, `revoke` of executor.py
--   Soar.Agents        `collect_orders` and `record_result` of executor.py
--   Soar.Decide        backend/app/soar/engine.py
--   Soar.Routes        the routes of backend/app/api/routes/response.py that issue orders
--   Soar.Lifecycle, Soar.Delivery, Soar.Recorded, Soar.Guarded, Soar.Containment, Soar.Histories
--                      proofs
--   Auth.Accounts      the tables, settings and libraries of the sign-in code
--   Auth.Lockout, Auth.Totp, Auth.Password, Auth.Mfa, Auth.Session   backend/app/security and
--                      backend/app/auth/dependencies.py
--   Auth.Tokens        backend/app/auth/security.py
--   Auth.Login, Auth.Calls   backend/app/api/routes/auth.py and mfa.py
--   Auth.Access, Auth.Rows, Auth.Signin, Auth.SecondFactor, Auth.Guessing, Auth.Backup, Auth.Kept,
--                      Auth.Revocation: proofs
--   Sigma              backend/app/detection/sigma.py: Tokens, Parser, Condition (the conditions), Values,
--                      Matching (fields and selections), Loading (documents); Grammar is the reference
--                      that the parser is proved against; Total, RoundTrip, Written, Quantified,
--                      Modifiers, Loaded: proofs
--   Ingestion.Regex, Ingestion.Dates, Ingestion.Windows, Ingestion.Linux, Ingestion.Normalizer
--                      backend/app/ingestion/normalizer.py
--   Ingestion.Service  backend/app/ingestion/service.py, composed with Detection.Engine and Soar.Decide
--   Ingestion.Histories, Ingestion.Answers   proofs
--   Triage.Routes      the routes of backend/app/api/routes/alerts.py that change tables
--   Triage.Trail, Triage.Deletion   proofs
--   Realtime.Hub       backend/app/realtime/hub.py
--   Realtime.Capacity  its handshakes as steps, with the bound on connections
--   Realtime.Stream    the authentication of backend/app/api/routes/stream.py
--   Realtime.Replay    the steps of threads that publish: take a number, build a message, append it
--   Realtime.InTurn, Realtime.Delivery   proofs
--   Security.RateLimit, Security.Net   the limiter of backend/app/security/rate_limit.py that keeps its
--                      buckets in memory, and backend/app/security/net.py
--   Security.Window, Security.Retry   proofs
--   Analysis           backend/app/analysis/engine.py: Events (events and findings), Groups and Sorted
--                      (dictionaries and sets), Batch and Classify (`_classify_batch`), Windows
--                      (`_detect_windows_anomalies`), Signatures and Catalog
--                      (`_detect_threat_signatures`), Correlate (`_detect_correlations`), SigmaPass
--                      (`_detect_sigma`), Lines (`_parse_lines`), Report (counts, timeline, indicators),
--                      Analyze (`analyze`, composed of these and of Ingestion.Normalizer)
--   Analysis.Built     `build_summary` of backend/app/analysis/report.py, with its proof
--   Analysis.Reports   backend/app/api/routes/analysis.py
--   Analysis.Grouped, Analysis.BruteForce, Analysis.Fired, Analysis.Guessed, Analysis.Totals,
--                      Analysis.Hours, Analysis.HoursOrder, Analysis.Timeline, Analysis.Shown   proofs
--   Agent.Signature, Agent.Ledger, Agent.Orders   the check of signatures, the ledger and the releases of
--                      agent/kill_switch_agent_v2.py
--   Agent.Replay, Agent.Chain, Agent.Release   proofs
--
-- A table is a list of rows: alerts newest first, orders in the order of creation. An operation
-- takes the tables and returns them, and a commit succeeds. Instants are microseconds since the
-- epoch, and the clock is an argument. Keys and tokens that the database or `secrets` draws are
-- parameters. So are the libraries: `ipaddress`, `re`, `urllib.parse`, `jose`, `passlib` and the
-- digests, and `csv` and `json`, which read an uploaded file; a theorem that relies on one names what it relies on as a hypothesis. Letters are ASCII
-- letters. The floats of the rate limiter are exact: a token is sixty million units. The rates of the
-- file analysis are compared as products. Every function is by structural recursion, with two exceptions on fuel. The decimal print of
-- a number has fuel of one more than the number, which is enough since each digit divides it by ten.
-- The parser of Sigma conditions has fuel of six times the number of tokens and five: between two
-- tokens read there are at most six calls, and Sigma.Total proves that it is never used up.
--
-- Not modelled: the console, printed reports and language-model calls, enrichment and other HTTP clients,
-- the external event stores (a submission whose time the library does not read is not followed into one),
-- Sigma rule packs, the rate limiter on Redis, the agent's commands, the prose of a finding,
-- and the routes that only query; audit rows, the payloads of broadcasts, webhooks and cookies of the
-- response.
pub mod Prelude
pub mod Models
pub mod Realtime
pub mod LogStore
pub mod Detection
pub mod Soar
pub mod Ingestion
pub mod Triage
pub mod Security
pub mod Analysis
pub mod Auth
pub mod Agent
pub mod Sigma
