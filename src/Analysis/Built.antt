-- ===== src/Analysis/Built.antt =====
-- `build_summary` of backend/app/analysis/report.py: the shape that is stored on a report. The prose of
-- a recommendation is left out.
use aegisiq.Analysis.Analyze.{Summary}
use aegisiq.Analysis.Events.{Finding}
use aegisiq.Models.Log.{Severity, low, medium, high, critical}
use mathlib.Core.Path.{subst}
use aegisiq.Prelude.{
  ℕ, ◌≤◌, String, ◌≡◌, refl, sym, ap, ◌⊎◌, inl, inr, Bool, true, false, Option, none, some, List,
  [], ◌∷◌, map, arith, ltb, ◌==◌, if◌then◌else◌, Bool-cases, length, any, All,
}

-- `order.index(severity)`
abbrev pub rank : Severity → ℕ
rank low = 0
rank medium = 1
rank high = 2
rank critical = 3

pub record Recommendation : Type 0 where
  pub finding : String
  pub priority : Severity
  pub mitre : Option String

pub record Built : Type 0 where
  pub analysis : Summary
  pub worst_severity : Option Severity
  pub findings_count : ℕ
  pub recommendations : List Recommendation

-- the loop over the findings
unfoldable pub worst_of : Severity → List Finding → Severity
worst_of worst [] = worst
worst_of worst (f ∷ findings) =
    worst_of (if ltb (rank worst) (rank f.severity) then f.severity else worst) findings

abbrev pub worst_or_none : List Finding → Option Severity
worst_or_none [] = none
worst_or_none (f ∷ findings) = some (worst_of low (f ∷ findings))

unfoldable pub build_summary : Summary → Built
unfolding worst_of
build_summary raw = record {
  analysis = raw;
  worst_severity = worst_or_none raw.findings;
  findings_count = length raw.findings;
  recommendations =
      map (λ f. record { finding = f.rule; priority = f.severity; mitre = f.mitre }) raw.findings;
}

worst_of-upper :
    (worst : Severity) (findings : List Finding)
    → (rank worst ≤ rank (worst_of worst findings))
      × All (λ f. rank f.severity ≤ rank (worst_of worst findings)) findings
unfolding worst_of
worst_of-upper worst [] = (omega arith, tt)
worst_of-upper worst (f ∷ findings) =
    let next = if ltb (rank worst) (rank f.severity) then f.severity else worst in
    let (above, all_below) = worst_of-upper next findings in
    let first_two : (rank worst ≤ rank next) × (rank f.severity ≤ rank next) =
      elim (Bool-cases (ltb (rank worst) (rank f.severity))) [
        | inl e ↦ rw (e, if◌then◌else◌) (ground (arith, e))
        | inr e ↦ rw (e, if◌then◌else◌) (ground (arith, e))
      ] in
    (omega (arith, above, first_two.0), (omega (arith, above, first_two.1), all_below))

-- a finding of a severity
unfoldable pub has_severity : Severity → Finding → Bool
has_severity v f = rank f.severity == rank v

worse :
    (worst : Severity) (f : Finding) (findings : List Finding)
    → ltb (rank worst) (rank f.severity) ≡ true
    → worst_of worst (f ∷ findings) ≡ worst_of f.severity findings
unfolding worst_of
worse worst f findings e = ap (λ b. worst_of (if b then f.severity else worst) findings) e

no_worse :
    (worst : Severity) (f : Finding) (findings : List Finding)
    → ltb (rank worst) (rank f.severity) ≡ false
    → worst_of worst (f ∷ findings) ≡ worst_of worst findings
unfolding worst_of
no_worse worst f findings e = ap (λ b. worst_of (if b then f.severity else worst) findings) e

Attained : Severity → List Finding → Severity → Type 0
Attained worst findings v = (v ≡ worst) ⊎ (any (has_severity v) findings ≡ true)

worst_of-Attained :
    (worst : Severity) (findings : List Finding) → Attained worst findings (worst_of worst findings)
unfolding worst_of any has_severity Attained
worst_of-Attained worst [] = inl refl
worst_of-Attained worst (f ∷ findings) = elim (Bool-cases (ltb (rank worst) (rank f.severity))) [
  | inl e ↦
      subst (Attained worst (f ∷ findings)) (sym (worse worst f findings e))
        (elim (worst_of-Attained f.severity findings) [
          | inl s ↦ let same = ap rank s in inr (ground (arith, same))
          | inr t ↦ inr (ground (arith, t))
        ])
  | inr e ↦
      subst (Attained worst (f ∷ findings)) (sym (no_worse worst f findings e))
        (elim (worst_of-Attained worst findings) [
          | inl s ↦ inl s
          | inr t ↦ inr (ground (arith, t))
        ])
]

worst_of-low :
    (f : Finding) (findings : List Finding)
    → any (has_severity (worst_of low (f ∷ findings))) (f ∷ findings) ≡ true
unfolding any has_severity Attained
worst_of-low f findings = elim (worst_of-Attained low (f ∷ findings)) [
  | inl s ↦
      let zero_rank = ap rank s in
      ground (arith, zero_rank, (worst_of-upper low (f ∷ findings)).1.0)
  | inr t ↦ t
]

worst_or_none-worst :
    (findings : List Finding) (v : Severity)
    → worst_or_none findings ≡ some v
    → (any (has_severity v) findings ≡ true) × All (λ f. rank f.severity ≤ rank v) findings
worst_or_none-worst [] v h = absurd (ground (arith, h))
worst_or_none-worst (f ∷ findings) v h =
    let same : worst_of low (f ∷ findings) ≡ v = ground (arith, h) in
    subst
      (λ w.
        (any (has_severity w) (f ∷ findings) ≡ true)
        × All (λ g. rank g.severity ≤ rank w) (f ∷ findings))
      same (worst_of-low f findings, (worst_of-upper low (f ∷ findings)).1)

-- The worst severity that is stored is that of a finding, and no finding is worse.
pub build_summary-worst :
    (raw : Summary) (v : Severity)
    → (build_summary raw).worst_severity ≡ some v
    → (any (has_severity v) raw.findings ≡ true) × All (λ f. rank f.severity ≤ rank v) raw.findings
unfolding build_summary
build_summary-worst raw v h = worst_or_none-worst raw.findings v h
