-- ===== src/Analysis/Totals.antt =====
-- The counts of the summary of backend/app/analysis/engine.py.
use aegisiq.Analysis.Analyze.{Environment, parse_all, max_lines, max_bytes}
use aegisiq.Analysis.Events.{Event}
use aegisiq.Analysis.Lines.{parse_lines}
use aegisiq.Analysis.Report.{add_one, count_all, counter, severity_eq}
use aegisiq.Models.Json.{Json}
use aegisiq.Models.Log.{Severity, low, medium, high, critical}
use aegisiq.Prelude.{
  ℕ, ◌+◌, ◌≡◌, refl, ap, inl, inr, Bool, true, false, List, [], ◌∷◌, arith, ltb, if◌then◌else◌,
  Bool-cases, length, take, count_if,
}

module _ {A : Type 0} (same : A → A → Bool) where
  -- `counts.get(key, 0)`
  unfoldable pub count_at : A → List (A × ℕ) → ℕ
  count_at key [] = 0
  count_at key ((y, n) ∷ counts) = if same y key then n else count_at key counts

  module _ (diagonal : (x : A) → same x x ≡ true)
      (sound : (x y : A) → same x y ≡ true → x ≡ y) where
    other_key : (x y key : A) → same y x ≡ false → same y key ≡ true → same x key ≡ false
    other_key x y key apart at_key = elim (Bool-cases (same x key)) [
      | inl e ↦ absurd (ground (arith, apart, ap (same y) (sound x key e), at_key))
      | inr e ↦ e
    ]

    pub count_at-add_one :
        (key x : A) (counts : List (A × ℕ))
        → count_at key (add_one same x counts) ≡ (if same x key then 1 else 0) + count_at key counts
    unfolding count_at add_one
    count_at-add_one key x [] = ground arith
    count_at-add_one key x ((y, n) ∷ counts) = elim (Bool-cases (same y x)) [
      | inl e ↦ rw (e, if◌then◌else◌) (ground (arith, ap (λ z. same z key) (sound y x e)))
      | inr e ↦ elim (Bool-cases (same y key)) [
        | inl at_key ↦ ground (arith, e, at_key, other_key x y key e at_key)
        | inr off_key ↦ ground (arith, e, off_key, count_at-add_one key x counts)
      ]
    ]

    count_at-count_all :
        (key : A) (xs : List A) (counts : List (A × ℕ))
        → count_at key (count_all same xs counts)
          ≡ count_if (λ x. same x key) xs + count_at key counts
    unfolding count_all count_if
    count_at-count_all key [] counts = omega arith
    count_at-count_all key (x ∷ xs) counts =
        ground
          (arith, count_at-count_all key xs (add_one same x counts), count_at-add_one key x counts)

    -- A key of `Counter(xs)` has the number of its occurrences.
    pub count_at-counter :
        (key : A) (xs : List A) → count_at key (counter same xs) ≡ count_if (λ x. same x key) xs
    unfolding counter count_at
    count_at-counter key xs = omega (arith, count_at-count_all key xs [])

pub severity_eq_refl : (v : Severity) → severity_eq v v ≡ true
severity_eq_refl low = refl
severity_eq_refl medium = refl
severity_eq_refl high = refl
severity_eq_refl critical = refl

pub severity_eq→eq : (v w : Severity) → severity_eq v w ≡ true → v ≡ w
severity_eq→eq low low h = refl
severity_eq→eq medium medium h = refl
severity_eq→eq high high h = refl
severity_eq→eq critical critical h = refl
severity_eq→eq low medium h = absurd (ground (arith, h))
severity_eq→eq low high h = absurd (ground (arith, h))
severity_eq→eq low critical h = absurd (ground (arith, h))
severity_eq→eq medium low h = absurd (ground (arith, h))
severity_eq→eq medium high h = absurd (ground (arith, h))
severity_eq→eq medium critical h = absurd (ground (arith, h))
severity_eq→eq high low h = absurd (ground (arith, h))
severity_eq→eq high medium h = absurd (ground (arith, h))
severity_eq→eq high critical h = absurd (ground (arith, h))
severity_eq→eq critical low h = absurd (ground (arith, h))
severity_eq→eq critical medium h = absurd (ground (arith, h))
severity_eq→eq critical high h = absurd (ground (arith, h))

module _ (env : Environment) where
  -- the lines of an upload that the analysis takes
  unfoldable pub taken_lines : List ℕ → List Json
  taken_lines raw =
      let kept = if ltb max_bytes (length raw) then take max_bytes raw else raw in
      let lines = (parse_lines env.readers (env.decode kept)).0 in
      if ltb max_lines (length lines) then take max_lines lines else lines

  -- the events of an upload
  unfoldable pub taken_events : List ℕ → List Event
  unfolding taken_lines
  taken_events raw = (parse_all env 0 (taken_lines raw)).0
