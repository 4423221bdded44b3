-- ===== src/Models/Soar.antt =====
-- backend/app/models/soar.py and endpoint_agent.py. An action's text is left out: it only
-- restates the status and the order. Instants are microseconds since the epoch.
use aegisiq.Prelude.{ℕ, String, Bool, Option}

pub data SoarActionType : Type 0 where
  block_ip isolate_endpoint disable_account notify_analyst : SoarActionType

pub data SoarActionStatus : Type 0 where
  simulated pending executed failed : SoarActionStatus

pub record SoarAction : Type 0 where
  pub id : ℕ
  pub timestamp : ℕ
  pub action_type : SoarActionType
  pub target : String
  pub alert_id : Option ℕ
  pub rule_name : Option String
  pub status : SoarActionStatus
  pub execution_requested : Bool

pub data OrderStatus : Type 0 where
  queued delivered succeeded failed expired cancelled : OrderStatus

pub record EndpointAgent : Type 0 where
  pub endpoint_id : String
  pub hostname : Option String
  pub secret_enc : String
  pub enabled : Bool
  pub last_seen_at : Option ℕ
  pub last_seen_ip : Option String

pub record SoarOrder : Type 0 where
  pub order_uid : String
  pub endpoint_id : String
  pub action : String
  pub target : String
  pub status : OrderStatus
  pub soar_action_id : Option ℕ
  pub alert_id : Option ℕ
  pub issued_by : String
  pub created_at : ℕ
  pub delivered_at : Option ℕ
  pub completed_at : Option ℕ
  pub expires_at : Option ℕ
  pub output : Option String
