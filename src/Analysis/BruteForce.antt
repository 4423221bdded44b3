-- ===== src/Analysis/BruteForce.antt =====
-- What the brute-force rule of the file analysis finds.
use aegisiq.Analysis.Batch.{
  by_source_type, brute_force_group, brute_force_findings, is_failure, pair_eq,
}
use aegisiq.Analysis.Events.{Event, Finding, or_text, make_finding}
use aegisiq.Analysis.Groups.{positions}
use mathlib.Core.Path.{ap₂}
use aegisiq.Analysis.Grouped.{hit, hit-guarded, tally-positions, length-positions}
use aegisiq.Models.Alert.{DetectionRule}
use aegisiq.Prelude.{
  ℕ, ◌≤◌, String, ◌≡◌, ap, ◌∙◌, ◌↔◌, Bool, true, false, not, ◌&&◌, ◌||◌, List, arith, leb, ◌==◌,
  if◌then◌else◌, str_eq, str_eq_iff, str_eq_refl, length, count_if,
}

and_true : (a b : Bool) → ((a && b) ≡ true) ↔ ((a ≡ true) × (b ≡ true))
and_true a b = ground arith

pair_eq_iff : (a b : String × String) → (pair_eq a b ≡ true) ↔ (a ≡ b)
pair_eq_iff (a, b) (c, d) = (
  (λ h.
      let (l, r) = (and_true (str_eq a c) (str_eq b d)).0 h in
      ap₂ (λ x y. (x, y)) ((str_eq_iff a c).0 l) ((str_eq_iff b d).0 r)),
  (λ h.
      (and_true (str_eq a c) (str_eq b d)).1
        ((str_eq_iff a c).1 (ap (λ x. x.0) h), (str_eq_iff b d).1 (ap (λ x. x.1) h))),
)

-- an event of a source, a failed sign-in
unfoldable pub failed_from : String → Event → Bool
failed_from src e = str_eq (or_text e.source_ip "") src && is_failure e

-- A finding on a source whose count passes a test.
unfoldable pub on_source : String → (ℕ → Bool) → Finding → Bool
on_source src q f = str_eq f.source src && q f.count

guarded :
    (threshold n : ℕ) (b : Bool)
    → 1 ≤ threshold
    → (leb 1 n && (leb threshold n && b)) ≡ (leb threshold n && b)
guarded threshold n b h = ground (arith, h)

module _ (events : List Event) (rule : DetectionRule) (src : String) (q : ℕ → Bool) where
  group_hit :
      (s event_type : String) (indexes : List ℕ)
      → hit (on_source src q) (brute_force_group events rule ((s, event_type), indexes)) ≡ (
          not (not (str_eq event_type "authentication_failure") || str_eq s "")
          && (leb rule.threshold (length indexes) && (str_eq s src && q (length indexes))))
  unfolding on_source brute_force_group make_finding
  group_hit s event_type indexes = hit-guarded (on_source src q) _ _ _

  other_key :
      (k : String × String) (indexes : List ℕ)
      → pair_eq k (src, "authentication_failure") ≡ false
      → hit (on_source src q) (brute_force_group events rule (k, indexes)) ≡ false
  other_key (s, event_type) indexes other = ground (arith, other, group_hit s event_type indexes)

  tested :
      1 ≤ rule.threshold
      → str_eq src "" ≡ false
      → count_if (on_source src q) (brute_force_findings events rule) ≡ (
          if leb rule.threshold (count_if (failed_from src) events)
            && q (count_if (failed_from src) events)
          then 1
          else 0)
  unfolding brute_force_findings by_source_type failed_from
  tested some_threshold named =
      let mine = positions (failed_from src) 0 events in
      let n = count_if (failed_from src) events in
      tally-positions pair_eq pair_eq_iff (brute_force_group events rule) (on_source src q)
        (src, "authentication_failure") other_key (λ _. true)
        (λ e. (or_text e.source_ip "", e.event_type)) events
      ∙ rw
          (
            group_hit src "authentication_failure" mine,
            length-positions (failed_from src) 0 events,
            named,
            str_eq_refl src,
            str_eq_refl "authentication_failure",
          )
          (ap (λ c. if c then 1 else 0) (guarded rule.threshold n (q n) some_threshold))

-- The brute-force rule has one finding on a source from which as many failed sign-ins as its threshold come,
-- which counts them all, and no other finding on it; on another source it has none. The threshold is not zero, and the
-- source is named.
pub brute_force_findings-counted :
    (events : List Event) (rule : DetectionRule) (src : String)
    → 1 ≤ rule.threshold
    → str_eq src "" ≡ false
    → (count_if
          (on_source src (λ n. n == count_if (failed_from src) events))
          (brute_force_findings events rule)
        ≡ (if leb rule.threshold (count_if (failed_from src) events) then 1 else 0))
      × (count_if
            (on_source src (λ n. not (n == count_if (failed_from src) events)))
            (brute_force_findings events rule)
          ≡ 0)
brute_force_findings-counted events rule src some_threshold named =
    let n = count_if (failed_from src) events in
    ground (
      arith,
      tested events rule src (λ m. m == n) some_threshold named,
      tested events rule src (λ m. not (m == n)) some_threshold named,
    )
