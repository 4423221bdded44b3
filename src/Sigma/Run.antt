-- ===== src/Sigma/Run.antt =====
-- How a run of the parser of backend/app/detection/sigma.py comes out. The program has the first two
-- outcomes, a value and the raised `_CondSyntaxError`; the fuel is the model's.
use aegisiq.Prelude.{◌≢◌}

pub data Run {ℓ} (A : Type ℓ) : Type ℓ where
  syntax_error : Run A
  done : A → Run A
  out_of_fuel : Run A

abbrev pub and_run {ℓ κ} : {A : Type ℓ} {B : Type κ} → Run A → (A → Run B) → Run B
and_run syntax_error next = syntax_error
and_run (done x) next = next x
and_run out_of_fuel next = out_of_fuel

-- A run that its fuel suffices for, and whose value, if any, has the property.
pub data Within {ℓ κ} {A : Type ℓ} (Q : A → Type κ) : Run A → Type (ℓ ⊔ κ) where
  stops : Within Q syntax_error
  ends : {x : A} → Q x → Within Q (done x)

module _ {ℓ κ} {A : Type ℓ} {Q : A → Type κ} where
  pub Within-out_of_fuel : {run : Run A} → Within Q run → run ≢ out_of_fuel
  Within-out_of_fuel stops = cc
  Within-out_of_fuel (ends q) = cc

  pub Within-weaken {μ} :
      {R : A → Type μ} {run : Run A} → Within Q run → ((x : A) → Q x → R x) → Within R run
  Within-weaken stops weaker = stops
  Within-weaken (ends {x} q) weaker = ends (weaker x q)

module _ {ℓ κ ℓ' κ'} {A : Type ℓ} {B : Type κ} {Q : A → Type ℓ'} {R : B → Type κ'} where
  pub Within-and_run :
      {run : Run A} {next : A → Run B}
      → Within Q run
      → ((x : A) → Q x → Within R (next x))
      → Within R (and_run run next)
  Within-and_run stops later = stops
  Within-and_run (ends {x} q) later = later x q
