-- ===== src/Analysis/HoursOrder.antt =====
-- The order of the hours of the timeline of backend/app/analysis/engine.py, by code points.
use aegisiq.Analysis.Report.{HourBucket, insert_bucket, sort_buckets}
use aegisiq.Analysis.Sorted.{codes_before, text_before}
use aegisiq.Prelude.{
  ℕ, ◌≡◌, refl, inl, inr, true, false, List, [], ◌∷◌, arith, if◌then◌else◌, Bool-cases, codes,
}

-- No bucket's hour is before that of the bucket before it.
unfoldable pub InOrder : List HourBucket → Type 0
InOrder [] = Unit
InOrder (b ∷ []) = Unit
InOrder (b ∷ c ∷ buckets) = (text_before c.hour b.hour ≡ false) × InOrder (c ∷ buckets)

codes_before-asym : (xs ys : List ℕ) → codes_before xs ys ≡ true → codes_before ys xs ≡ false
unfolding codes_before
codes_before-asym [] [] h = refl
codes_before-asym [] (y ∷ ys) h = refl
codes_before-asym (x ∷ xs) [] h = absurd (ground (arith, h))
codes_before-asym (x ∷ xs) (y ∷ ys) h = ground (arith, h, codes_before-asym xs ys)

InOrder-insert_bucket :
    (b : HourBucket) (buckets : List HourBucket)
    → InOrder buckets
    → InOrder (insert_bucket b buckets)
unfolding InOrder insert_bucket text_before
InOrder-insert_bucket b [] h = tt
InOrder-insert_bucket b (c ∷ []) h = elim (Bool-cases (text_before c.hour b.hour)) [
  | inl e ↦ rw (e, if◌then◌else◌) (codes_before-asym (codes c.hour) (codes b.hour) e, tt)
  | inr e ↦ rw (e, if◌then◌else◌) (e, tt)
]
InOrder-insert_bucket b (c ∷ d ∷ buckets) h =
    let later = InOrder-insert_bucket b (d ∷ buckets) h.1 in
    elim (Bool-cases (text_before c.hour b.hour)) [
      | inl e ↦ elim (Bool-cases (text_before d.hour b.hour)) [
        | inl l ↦ rw (e, l, if◌then◌else◌) (h.0, rw (l, if◌then◌else◌) at later)
        | inr l ↦
            rw (e, l, if◌then◌else◌) (codes_before-asym (codes c.hour) (codes b.hour) e, (l, h.1))
      ]
      | inr e ↦ rw (e, if◌then◌else◌) (e, h)
    ]

pub InOrder-sort_buckets : (buckets : List HourBucket) → InOrder (sort_buckets buckets)
unfolding sort_buckets InOrder
InOrder-sort_buckets [] = tt
InOrder-sort_buckets (b ∷ buckets) =
    InOrder-insert_bucket b (sort_buckets buckets) (InOrder-sort_buckets buckets)
