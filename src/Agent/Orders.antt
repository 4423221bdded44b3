-- ===== src/Agent/Orders.antt =====
-- What the agent of agent/kill_switch_agent_v2.py does with an order, and the release of blocks that
-- have lasted long enough. An executor runs a command of the host: it is a parameter that answers
-- for a target whether the command succeeded, and its output. The clock, in seconds, is an argument.
use aegisiq.Agent.Ledger.{Entry, record_action}
use aegisiq.Prelude.{
  ℕ, ◌+◌, ◌*◌, String, Bool, true, false, not, Option, none, some, List, [], ◌∷◌, leb,
  if◌then◌else◌, str_eq, concat, where_rows,
}

pub record Executors : Type 0 where
  pub executor : String → Option (String → Bool × String)

-- `scheduled_unblocks`: the targets with the instant at which each is released
abbrev pub Schedule : Type 0
Schedule = List (String × ℕ)

-- `dict.pop(target, None)`
unfoldable pub pop : String → Schedule → Schedule
pop target schedule = where_rows (λ (p : String × ℕ). not (str_eq p.0 target)) schedule

-- `d[target] = expiry`: a key that is there keeps its place, a new one comes last
unfoldable pub put : String → ℕ → Schedule → Schedule
put target expiry [] = (target, expiry) ∷ []
put target expiry (p ∷ schedule) =
    let later = put target expiry schedule in
    if str_eq p.0 target then (target, expiry) ∷ schedule else p ∷ later

-- the schedule after an order that was carried out
unfoldable pub reschedule : ℕ → ℕ → String → String → Schedule → Schedule
reschedule now max_minutes action target schedule =
    if str_eq action "block_ip"
    then put target (now + max_minutes * 60) schedule
    else if str_eq action "unblock_ip"
    then pop target schedule
    else schedule

-- `_apply_order`
unfoldable pub apply_order :
    Executors → ℕ → ℕ → String → String → Schedule → (Bool × String) × Schedule
unfolding reschedule
apply_order executors now max_minutes action target schedule = elim (executors.executor action) [
  | none ↦ ((false, concat "unsupported action: " action), schedule)
  | some run ↦ (
    run target,
    if (run target).0 then reschedule now max_minutes action target schedule else schedule,
  )
]

module _ (digest : String → String) (unblock : String → Bool × String) (now : ℕ) where
  unfoldable pub release : String → List Entry → List Entry
  release target entries =
      record_action digest now "unblock_ip" target (unblock target).0
        (concat "auto-expiry: " (unblock target).1) "self-expiry" entries

  -- the loop of `_expire_scheduled` over the schedule as it was: what is left of the schedule, and
  -- the ledger
  unfoldable pub expire : Schedule → Schedule → List Entry → Schedule × List Entry
  unfolding release
  expire [] schedule entries = (schedule, entries)
  expire ((target, expiry) ∷ rest) schedule entries = elim (leb expiry now) [
    | true ↦ expire rest (pop target schedule) (release target entries)
    | false ↦ expire rest schedule entries
  ]

-- `_expire_scheduled`
unfoldable pub expire_scheduled :
    (String → String) → Executors → ℕ → Schedule → List Entry → Schedule × List Entry
unfolding expire
expire_scheduled digest executors now schedule entries = elim (executors.executor "unblock_ip") [
  | none ↦ (schedule, entries)
  | some unblock ↦ expire digest unblock now schedule schedule entries
]
