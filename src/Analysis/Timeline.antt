-- ===== src/Analysis/Timeline.antt =====
-- The hours of the timeline of backend/app/analysis/engine.py.
use aegisiq.Analysis.Events.{Event}
use aegisiq.Analysis.Hours.{
  in_hour, sum_at, one_bucket, total_of, severity_of, one_more, sum_at-bump-one_bucket,
  sum_at-bump-total_of, sum_at-bump-severity_of,
}
use aegisiq.Analysis.HoursOrder.{InOrder, InOrder-sort_buckets}
use aegisiq.Analysis.Report.{
  HourBucket, bump, hour_buckets, insert_bucket, sort_buckets, timeline_buckets, severity_eq,
}
use aegisiq.Analysis.Sorted.{text_before}
use aegisiq.Models.Log.{Severity}
use aegisiq.Prelude.{
  ℕ, ◌+◌, String, ◌≡◌, refl, ◌∙◌, inl, inr, Bool, true, false, ◌&&◌, Option, none, some, List, [],
  ◌∷◌, arith, leb, if◌then◌else◌, str_eq, or_else, Bool-cases, Option-cases, take_chars, count_if,
}

-- what an event does to the buckets, by its time
timed_step : Option String → Severity → List HourBucket → List HourBucket
timed_step time v buckets = elim time [ none ↦ buckets | some t ↦ bump (take_chars 13 t) v buckets ]

-- whether a time is given and begins with an hour
at_hour : String → Option String → Bool
at_hour hour time = elim time [ none ↦ false | some t ↦ str_eq (take_chars 13 t) hour ]

at_hour-or_else :
    (hour : String) (e : Event) → at_hour hour (or_else e.timestamp none) ≡ in_hour hour e
unfolding at_hour in_hour
at_hour-or_else hour e = elim (Option-cases e.timestamp) [
  | inl nothing ↦ simp nothing refl
  | inr (t, found) ↦ rw found (ground arith)
]

-- A measure that an event of its hour raises by one, when its severity is of a kind.
module _ (measure : HourBucket → ℕ) (kind : Severity → Bool) (hour : String)
    (raises : (key : String) (v : Severity) (buckets : List HourBucket)
      → sum_at measure hour (bump key v buckets)
        ≡ (if kind v && str_eq key hour then 1 else 0) + sum_at measure hour buckets) where
  sum_at-timed_step :
      (time : Option String) (v : Severity) (buckets : List HourBucket)
      → sum_at measure hour (timed_step time v buckets)
        ≡ (if kind v && at_hour hour time then 1 else 0) + sum_at measure hour buckets
  unfolding timed_step at_hour
  sum_at-timed_step none v buckets = ground arith
  sum_at-timed_step (some t) v buckets = raises (take_chars 13 t) v buckets

  sum_at-hour_buckets :
      (events : List Event) (buckets : List HourBucket)
      → sum_at measure hour (hour_buckets events buckets)
        ≡ count_if (λ e. kind e.severity && in_hour hour e) events + sum_at measure hour buckets
  unfolding hour_buckets count_if timed_step
  sum_at-hour_buckets [] buckets = omega arith
  sum_at-hour_buckets (e ∷ es) buckets =
      let time = or_else e.timestamp none in
      ground (
        arith,
        sum_at-hour_buckets es (timed_step time e.severity buckets),
        sum_at-timed_step time e.severity buckets,
        at_hour-or_else hour e,
      )

-- An hour has one bucket when the buckets of the hour have any event, else none.
abbrev Single : String → List HourBucket → Type 0
Single hour buckets =
    sum_at one_bucket hour buckets ≡ (if leb 1 (sum_at total_of hour buckets) then 1 else 0)

Single-timed_step :
    (hour : String) (time : Option String) (v : Severity) (buckets : List HourBucket)
    → Single hour buckets
    → Single hour (timed_step time v buckets)
unfolding timed_step one_more
Single-timed_step hour none v buckets h = h
Single-timed_step hour (some t) v buckets h = ground (
  arith,
  h,
  sum_at-bump-one_bucket hour (take_chars 13 t) v buckets,
  sum_at-bump-total_of hour (take_chars 13 t) v buckets,
)

Single-hour_buckets :
    (hour : String) (events : List Event) (buckets : List HourBucket)
    → Single hour buckets
    → Single hour (hour_buckets events buckets)
unfolding hour_buckets timed_step
Single-hour_buckets hour [] buckets h = h
Single-hour_buckets hour (e ∷ es) buckets h =
    Single-hour_buckets hour es _
      (Single-timed_step hour (or_else e.timestamp none) e.severity buckets h)

-- Sorting changes no measure.
sum_at-insert_bucket :
    (measure : HourBucket → ℕ) (hour : String) (b : HourBucket) (buckets : List HourBucket)
    → sum_at measure hour (insert_bucket b buckets) ≡ sum_at measure hour (b ∷ buckets)
unfolding sum_at insert_bucket
sum_at-insert_bucket measure hour b [] = refl
sum_at-insert_bucket measure hour b (c ∷ buckets) = elim (Bool-cases (text_before c.hour b.hour)) [
  | inl e ↦ rw (e, if◌then◌else◌) (omega (arith, sum_at-insert_bucket measure hour b buckets))
  | inr e ↦ rw (e, if◌then◌else◌) refl
]

sum_at-sort_buckets :
    (measure : HourBucket → ℕ) (hour : String) (buckets : List HourBucket)
    → sum_at measure hour (sort_buckets buckets) ≡ sum_at measure hour buckets
unfolding sum_at sort_buckets
sum_at-sort_buckets measure hour [] = refl
sum_at-sort_buckets measure hour (b ∷ buckets) = omega (
  arith,
  sum_at-insert_bucket measure hour b (sort_buckets buckets),
  sum_at-sort_buckets measure hour buckets,
)

-- The timeline has one bucket for each hour that the time of some event begins with, and no other. The
-- bucket's total is the number of the events of the hour, under each severity it has the number of those
-- that have the severity, and the buckets are in the order of their hours.
pub timeline_buckets-by_hour :
    (events : List Event) (hour : String) (v : Severity)
    → (sum_at one_bucket hour (timeline_buckets events)
        ≡ (if leb 1 (count_if (in_hour hour) events) then 1 else 0))
      × (sum_at total_of hour (timeline_buckets events) ≡ count_if (in_hour hour) events)
      × (sum_at (severity_of v) hour (timeline_buckets events)
          ≡ count_if (λ e. severity_eq e.severity v && in_hour hour e) events)
      × InOrder (timeline_buckets events)
unfolding timeline_buckets sum_at
timeline_buckets-by_hour events hour v =
    let buckets = hour_buckets events [] in
    let totals =
      sum_at-hour_buckets total_of (λ w. true) hour (λ key w. sum_at-bump-total_of hour key w)
        events [] in
    let total = sum_at-sort_buckets total_of hour buckets ∙ totals in
    (
      ground (
        arith,
        sum_at-sort_buckets one_bucket hour buckets,
        Single-hour_buckets hour events [] refl,
        totals,
      ),
      omega (arith, total),
      omega (
        arith,
        sum_at-sort_buckets (severity_of v) hour buckets,
        sum_at-hour_buckets (severity_of v) (λ w. severity_eq w v) hour
            (λ key w bs. sum_at-bump-severity_of hour key w v bs) events [],
      ),
      InOrder-sort_buckets buckets,
    )
