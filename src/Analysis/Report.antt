-- ===== src/Analysis/Report.antt =====
-- The aggregations of backend/app/analysis/engine.py: `Counter`, the timeline and the indicators.
use aegisiq.Analysis.Events.{Event}
use aegisiq.Analysis.Groups.{collect}
use aegisiq.Analysis.Sorted.{text_before}
use aegisiq.Models.Json.{get, text_of}
use aegisiq.Models.Log.{Severity, low, medium, high, critical}
use aegisiq.Prelude.{
  ℕ, ◌+◌, String, Bool, true, false, Option, none, some, List, [], ◌∷◌, leb, ◌==◌, if◌then◌else◌,
  str_eq, or_else, take_chars, take,
}

abbrev pub severity_eq : Severity → Severity → Bool
severity_eq low low = true
severity_eq medium medium = true
severity_eq high high = true
severity_eq critical critical = true
severity_eq _ _ = false

module _ {A : Type 0} (same : A → A → Bool) where
  -- `counter[x] += 1`
  unfoldable pub add_one : A → List (A × ℕ) → List (A × ℕ)
  add_one x [] = (x, 1) ∷ []
  add_one x ((y, n) ∷ counts) =
      let later = add_one x counts in if same y x then (y, n + 1) ∷ counts else (y, n) ∷ later

  unfoldable pub count_all : List A → List (A × ℕ) → List (A × ℕ)
  unfolding add_one
  count_all [] counts = counts
  count_all (x ∷ xs) counts = count_all xs (add_one x counts)

  -- `Counter(xs)`, in the order of the first occurrences
  unfoldable pub counter : List A → List (A × ℕ)
  unfolding count_all
  counter xs = count_all xs []

insert_count : {A : Type 0} → A × ℕ → List (A × ℕ) → List (A × ℕ)
insert_count c [] = c ∷ []
insert_count c (d ∷ counts) =
    let later = insert_count c counts in if leb d.1 c.1 then c ∷ d ∷ counts else d ∷ later

by_count : {A : Type 0} → List (A × ℕ) → List (A × ℕ)
unfolding insert_count
by_count [] = []
by_count (c ∷ counts) = insert_count c (by_count counts)

-- `counter.most_common(n)`: equal counts keep their order
unfoldable pub most_common : {A : Type 0} → ℕ → List (A × ℕ) → List (A × ℕ)
unfolding by_count
most_common n counts = take n (by_count counts)

pub record HourBucket : Type 0 where
  pub hour : String
  pub total : ℕ
  pub by_severity : List (Severity × ℕ)

-- the bucket of an hour, one event more
unfoldable pub bump : String → Severity → List HourBucket → List HourBucket
unfolding add_one
bump hour severity [] =
    record { hour = hour; total = 1; by_severity = add_one severity_eq severity [] } ∷ []
bump hour severity (b ∷ buckets) =
    let later = bump hour severity buckets in
    if str_eq b.hour hour
    then record {
      hour = b.hour;
      total = b.total + 1;
      by_severity = add_one severity_eq severity b.by_severity;
    }
      ∷ buckets
    else b ∷ later

unfoldable pub hour_buckets : List Event → List HourBucket → List HourBucket
unfolding bump
hour_buckets [] buckets = buckets
hour_buckets (e ∷ es) buckets = hour_buckets es (elim (or_else e.timestamp none) [
  | none ↦ buckets
  | some ts ↦ bump (take_chars 13 ts) e.severity buckets
])

unfoldable pub insert_bucket : HourBucket → List HourBucket → List HourBucket
insert_bucket b [] = b ∷ []
insert_bucket b (c ∷ buckets) =
    let later = insert_bucket b buckets in
    if text_before c.hour b.hour then c ∷ later else b ∷ c ∷ buckets

unfoldable pub sort_buckets : List HourBucket → List HourBucket
unfolding insert_bucket
sort_buckets [] = []
sort_buckets (b ∷ buckets) = insert_bucket b (sort_buckets buckets)

-- `_timeline_buckets`
unfoldable pub timeline_buckets : List Event → List HourBucket
unfolding hour_buckets sort_buckets
timeline_buckets events = sort_buckets (hour_buckets events [])

pub record Indicators : Type 0 where
  pub source_ips : List (String × ℕ)
  pub usernames : List (String × ℕ)
  pub hostnames : List (String × ℕ)
  pub ports : List (ℕ × ℕ)
  pub urls : List (String × ℕ)
  pub user_agents : List (String × ℕ)

abbrev pub nonzero : Option ℕ → Option ℕ
nonzero none = none
nonzero (some n) = if n == 0 then none else some n

-- the counts of the values that are not empty
unfoldable pub counted : (Event → Option String) → List Event → List (String × ℕ)
unfolding counter
counted value events = counter str_eq (collect (λ e. or_else (value e) none) events)

-- `_iocs`
unfoldable pub iocs : List Event → Indicators
unfolding counted most_common counter
iocs events = record {
  source_ips = most_common 20 (counted (λ e. e.source_ip) events);
  usernames = most_common 20 (counted (λ e. e.username) events);
  hostnames = most_common 10 (counted (λ e. e.hostname) events);
  ports =
      most_common 20 (counter (λ m n. m == n) (collect (λ e. nonzero e.destination_port) events));
  urls = most_common 15 (counted (λ e. text_of (get "url" e.normalized_data)) events);
  user_agents = most_common 10 (counted (λ e. text_of (get "user_agent" e.normalized_data)) events);
}
