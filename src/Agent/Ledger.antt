-- ===== src/Agent/Ledger.antt =====
-- The ledger of agent/kill_switch_agent_v2.py: rows in the order of their ids, chained by hashes.
-- The digest, SHA-256 of the text in hexadecimal, is a parameter; the clock is an argument.
use aegisiq.Prelude.{
  ℕ, String, Bool, true, false, not, List, [], ◌∷◌, ◌++◌, if◌then◌else◌, str_eq, join, take_chars,
  decimal,
}

pub record Entry : Type 0 where
  pub ts : ℕ
  pub action : String
  pub target : String
  pub success : ℕ
  pub output : String
  pub signature : String
  pub prev_hash : String
  pub row_hash : String

-- `"0" * 64`
abbrev pub genesis : String
genesis = "0000000000000000000000000000000000000000000000000000000000000000"

-- `_tip_hash`
unfoldable pub tip_hash : String → List Entry → String
tip_hash tip [] = tip
tip_hash tip (e ∷ entries) = tip_hash e.row_hash entries

-- `f"{ts}|{action}|{target}|{int(success)}|{output}|{signature}|{prev}"`
unfoldable pub material : ℕ → String → String → ℕ → String → String → String → String
material ts action target success output signature prev =
    join "|" (decimal ts ∷ action ∷ target ∷ decimal success ∷ output ∷ signature ∷ prev ∷ [])

abbrev pub int : Bool → ℕ
int true = 1
int false = 0

module _ (digest : String → String) where
  unfoldable pub entry : ℕ → String → String → Bool → String → String → String → Entry
  entry ts action target success output signature prev = record {
    ts = ts;
    action = action;
    target = target;
    success = int success;
    output = take_chars 2048 output;
    signature = signature;
    prev_hash = prev;
    row_hash = digest (material ts action target (int success) output signature prev);
  }

  -- `Ledger.record`, without the hash that it returns
  unfoldable pub record_action :
      ℕ → String → String → Bool → String → String → List Entry → List Entry
  unfolding entry
  record_action ts action target success output signature entries =
      entries ++ entry ts action target success output signature (tip_hash genesis entries) ∷ []

  -- what `_verify_ledger` recomputes for a row
  unfoldable pub recomputed : Entry → String
  recomputed e = digest (material e.ts e.action e.target e.success e.output e.signature e.prev_hash)

  -- the loop of `_verify_ledger`: the hash that the next row must name, and whether all was right
  unfoldable pub verify_rows : String → Bool → List Entry → Bool
  verify_rows prev ok [] = ok
  verify_rows prev ok (e ∷ entries) =
      verify_rows e.row_hash
        (if not (str_eq (recomputed e) e.row_hash)
          then false
          else if not (str_eq e.prev_hash prev)
          then false
          else ok)
        entries

  -- `_verify_ledger`: whether its exit code is 0
  unfoldable pub verify_ledger : List Entry → Bool
  verify_ledger entries = verify_rows genesis true entries
