-- ===== src/Analysis/Hours.antt =====
-- What an event adds to the hours of the timeline of backend/app/analysis/engine.py.
use aegisiq.Analysis.Events.{Event}
use aegisiq.Analysis.Report.{HourBucket, add_one, bump, severity_eq}
use aegisiq.Analysis.Totals.{count_at, count_at-add_one, severity_eq_refl, severity_eq→eq}
use aegisiq.Models.Log.{Severity}
use aegisiq.Prelude.{
  ℕ, ◌+◌, String, ◌≡◌, refl, sym, ap, inl, inr, Bool, true, false, ◌&&◌, none, some, List, [], ◌∷◌,
  arith, leb, if◌then◌else◌, str_eq, str_eq_iff, truthy, Bool-cases, take_chars,
}

-- Whether the time of an event, which is not empty, begins with an hour.
unfoldable pub in_hour : String → Event → Bool
in_hour hour e =
    truthy e.timestamp
    && elim e.timestamp [ none ↦ false | some time ↦ str_eq (take_chars 13 time) hour ]

-- what the buckets of an hour have of a measure
unfoldable pub sum_at : (HourBucket → ℕ) → String → List HourBucket → ℕ
sum_at measure hour [] = 0
sum_at measure hour (b ∷ buckets) =
    (if str_eq b.hour hour then measure b else 0) + sum_at measure hour buckets

-- the measures: a bucket is one, its total, and its count of a severity
abbrev pub one_bucket : HourBucket → ℕ
one_bucket b = 1

abbrev pub total_of : HourBucket → ℕ
total_of b = b.total

abbrev pub severity_of : Severity → HourBucket → ℕ
severity_of v b = count_at severity_eq v b.by_severity

same_hour : (s t u : String) → str_eq s t ≡ true → str_eq s u ≡ str_eq t u
same_hour s t u e = ap (λ z. str_eq z u) ((str_eq_iff s t).0 e)

-- the number of buckets of an hour, with the hour of an event more
unfoldable pub one_more : Bool → ℕ → ℕ
one_more here n = if here then if leb 1 n then n else 1 else n

pub sum_at-bump-one_bucket :
    (hour key : String) (v : Severity) (buckets : List HourBucket)
    → sum_at one_bucket hour (bump key v buckets)
      ≡ one_more (str_eq key hour) (sum_at one_bucket hour buckets)
unfolding sum_at bump one_more
sum_at-bump-one_bucket hour key v [] = ground arith
sum_at-bump-one_bucket hour key v (b ∷ buckets) = elim (Bool-cases (str_eq b.hour key)) [
  | inl e ↦ rw (e, if◌then◌else◌) (ground (arith, same_hour b.hour key hour e))
  | inr e ↦
      rw (e, if◌then◌else◌)
        (elim (Bool-cases (str_eq key hour)) [
          | inl h ↦
              let apart = ap (str_eq b.hour) (sym ((str_eq_iff key hour).0 h)) in
              ground (arith, e, h, apart, sum_at-bump-one_bucket hour key v buckets)
          | inr h ↦ ground (arith, h, sum_at-bump-one_bucket hour key v buckets)
        ])
]

pub sum_at-bump-total_of :
    (hour key : String) (v : Severity) (buckets : List HourBucket)
    → sum_at total_of hour (bump key v buckets)
      ≡ (if str_eq key hour then 1 else 0) + sum_at total_of hour buckets
unfolding sum_at bump
sum_at-bump-total_of hour key v [] = ground arith
sum_at-bump-total_of hour key v (b ∷ buckets) = elim (Bool-cases (str_eq b.hour key)) [
  | inl e ↦ rw (e, if◌then◌else◌) (ground (arith, same_hour b.hour key hour e))
  | inr e ↦ rw (e, if◌then◌else◌) (ground (arith, sum_at-bump-total_of hour key v buckets))
]

severity_of-add_one :
    (v w : Severity) (counts : List (Severity × ℕ))
    → count_at severity_eq w (add_one severity_eq v counts)
      ≡ (if severity_eq v w then 1 else 0) + count_at severity_eq w counts
severity_of-add_one v w counts =
    count_at-add_one severity_eq severity_eq_refl severity_eq→eq w v counts

no_counts : (w : Severity) → count_at severity_eq w [] ≡ 0
unfolding count_at
no_counts w = refl

pub sum_at-bump-severity_of :
    (hour key : String) (v w : Severity) (buckets : List HourBucket)
    → sum_at (severity_of w) hour (bump key v buckets)
      ≡ (if severity_eq v w && str_eq key hour then 1 else 0) + sum_at (severity_of w) hour buckets
unfolding sum_at bump
sum_at-bump-severity_of hour key v w [] = ground (arith, severity_of-add_one v w [], no_counts w)
sum_at-bump-severity_of hour key v w (b ∷ buckets) = elim (Bool-cases (str_eq b.hour key)) [
  | inl e ↦
      rw (e, if◌then◌else◌)
        (ground (arith, same_hour b.hour key hour e, severity_of-add_one v w b.by_severity))
  | inr e ↦ rw (e, if◌then◌else◌) (ground (arith, sum_at-bump-severity_of hour key v w buckets))
]
