-- ===== src/Models/Agent.antt =====
-- backend/app/models/agent.py: a monitored endpoint. The columns that ingestion does not read are left out.
use aegisiq.Prelude.{ℕ, String, Option}

pub data AgentStatus : Type 0 where
  online offline warning : AgentStatus

pub record Agent : Type 0 where
  pub id : ℕ
  pub agent_id : String
  pub hostname : String
  pub status : AgentStatus
  pub last_seen : Option ℕ
