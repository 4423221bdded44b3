-- ===== src/Agent/Release.antt =====
-- No block outlasts its time: what `_expire_scheduled` of agent/kill_switch_agent_v2.py leaves.
use aegisiq.Agent.Ledger.{Entry}
use aegisiq.Agent.Orders.{Schedule, release}
use aegisiq.Prelude.{
  ℕ, ◌<◌, String, ◌≡◌, ◌⊎◌, Bool, true, ◌&&◌, List, [], ◌∷◌, leb, if◌then◌else◌, str_eq, any, All,
}

-- Every block of the schedule is released after the instant.
abbrev pub AllAfter : ℕ → Schedule → Type 0
AllAfter now schedule = All (λ (p : String × ℕ). now < p.1) schedule

-- The targets of the schedule whose time has come, in order.
pub over : ℕ → Schedule → List String
over now [] = []
over now ((target, expiry) ∷ rest) =
    let later = over now rest in if leb expiry now then target ∷ later else later

-- One row of the ledger for each release.
pub releases :
    (String → String) → (String → Bool × String) → ℕ → List String → List Entry → List Entry
releases digest unblock now [] entries = entries
releases digest unblock now (target ∷ targets) entries =
    releases digest unblock now targets (release digest unblock now target entries)

module _ (digest : String → String) (unblock : String → Bool × String) (now : ℕ) where
  -- a row whose time has not come, or whose target the rows still to come release
  abbrev Pending : Schedule → String × ℕ → Type 0
  Pending rest p =
      (now < p.1) ⊎ (any (λ (q : String × ℕ). str_eq q.0 p.0 && leb q.1 now) rest ≡ true)
