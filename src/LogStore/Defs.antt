-- ===== src/LogStore/Defs.antt =====
-- The primitives of backend/app/storage/base.py that the detection rules use.
use aegisiq.Prelude.{ℕ, String, Option}

pub record LogStore : Type 0 where
  -- event type, source address, window start, window end
  pub count_events : String → Option String → ℕ → ℕ → ℕ
  -- source address, window
  pub count_distinct_ports : Option String → ℕ → ℕ → ℕ
  -- event type, source address, window
  pub count_distinct_usernames : String → Option String → ℕ → ℕ → ℕ
  -- event type, user, source address, window
  pub count_events_by_actor : String → Option String → Option String → ℕ → ℕ → ℕ
  -- event type, path, window
  pub count_by_normalized_path : String → String → ℕ → ℕ → ℕ
