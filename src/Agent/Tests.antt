-- ===== src/Agent/Tests.antt =====
-- Runs of the response agent's ledger and releases.
use aegisiq.Agent.Chain.{
  Action, record_all, record_all-verify_ledger, NoCollision, SameRows, verify_ledger_same_tip,
}
use aegisiq.Agent.Ledger.{
  Entry, genesis, material, recomputed, verify_rows, verify_ledger, tip_hash,
}
use aegisiq.Agent.Orders.{Executors, Schedule}
use aegisiq.Agent.Replay.{accepted, accepted-once}
use aegisiq.Agent.Signature.{verify_signature}
use aegisiq.Prelude.{
  ℕ, ◌≤◌, String, ◌≡◌, refl, Bool, true, some, List, [], ◌∷◌, arith, str_eq, is_some, contains,
  join, before, split, digits, decimal, any,
}

abbrev zeros : String → String
zeros s = genesis

abbrev actions : List Action
actions =
    record {
      ts = 5;
      action = "block_ip";
      target = "203.0.113.5";
      success = true;
      output = "ok";
      signature = "t=5";
    }
    ∷ []

empty_is_right : verify_ledger zeros [] ≡ true
unfolding verify_ledger verify_rows
empty_is_right = refl

record_all-verify_ledger_example : verify_ledger zeros (record_all zeros actions []) ≡ true
record_all-verify_ledger_example =
    record_all-verify_ledger zeros actions [] (omega arith, tt) empty_is_right

-- two rows that differ in their fields but not in the text under the hash
abbrev row : String → String → Entry
row action target = record {
  ts = 5;
  action = action;
  target = target;
  success = 1;
  output = "ok";
  signature = "t=5";
  prev_hash = genesis;
  row_hash = genesis;
}

rows_are_right : (action target : String) → verify_ledger zeros (row action target ∷ []) ≡ true
unfolding verify_ledger verify_rows recomputed str_eq
rows_are_right action target = refl

rows_have_one_text : NoCollision zeros (row "a|b" "c" ∷ []) (row "a" "b|c" ∷ [])
unfolding material join decimal digits
rows_have_one_text = ((λ e. refl), tt)

verify_ledger_same_tip_example : SameRows zeros (row "a|b" "c" ∷ []) (row "a" "b|c" ∷ [])
unfolding tip_hash
verify_ledger_same_tip_example =
    verify_ledger_same_tip zeros (row "a|b" "c" ∷ []) (row "a" "b|c" ∷ []) (λ s. refl)
      rows_have_one_text refl (rows_are_right "a|b" "c") (rows_are_right "a" "b|c") refl

abbrev unblock : String → Bool × String
unblock target = (true, "ok")

abbrev linux : Executors
linux = record { executor = λ action. some unblock }

abbrev schedule : Schedule
schedule = ("203.0.113.5", 50) ∷ ("203.0.113.9", 90) ∷ []

-- the same signed order, twice
abbrev signed : ℕ × (String × String)
signed = (100, ("{}", "t=100,n=a1,v1=ok"))

accepted-once_example :
    accepted (λ secret message. "ok") (λ t. some 100) "secret" "a1" (signed ∷ signed ∷ []) [] ≤ 1
accepted-once_example =
    accepted-once (λ secret message. "ok") (λ t. some 100) "secret" "a1" (signed ∷ signed ∷ []) []
      (omega arith)

-- the first is accepted
is_accepted :
    (verify_signature
      (λ secret message. "ok")
      (λ t. some 100)
      100
      "secret"
      "{}"
      "t=100,n=a1,v1=ok"
      []).0
    ≡ true
unfolding verify_signature aegisiq.Prelude.split aegisiq.Prelude.contains aegisiq.Prelude.is_some
    str_eq aegisiq.Prelude.before aegisiq.Prelude.any
is_accepted = refl
