-- ===== src/Analysis/Fired.antt =====
-- What a threat signature of the file analysis finds.
use aegisiq.Analysis.Events.{Event, Finding, make_finding}
use aegisiq.Analysis.Groups.{positions}
use aegisiq.Analysis.Grouped.{hit, tally-positions, length-positions}
use aegisiq.Analysis.Signatures.{
  Signature, web_context_signatures, actor_of, scan_text, event_is_web, fires, signature_group,
  signature_findings,
}
use aegisiq.Prelude.{
  ℕ, String, ◌≡◌, refl, ◌∙◌, Bool, false, not, ◌&&◌, ◌||◌, some, List, [], ◌∷◌, arith, leb, ◌==◌,
  if◌then◌else◌, str_eq, str_eq_iff, str_eq_refl, length, any, count_if,
}

-- A finding on an actor whose count passes a test.
unfoldable pub on_actor : String → (ℕ → Bool) → Finding → Bool
on_actor actor q f = str_eq f.source actor && q f.count

hit_actor :
    (actor : String) (q : ℕ → Bool) (f : Finding)
    → hit (on_actor actor q) (some f) ≡ (str_eq f.source actor && q f.count)
unfolding hit on_actor
hit_actor actor q f = refl

module _ (web_indicator : String → Bool) (found : String → String → Bool) where
  -- the events of an actor in which the pattern of a signature is found, only web traffic for a web signature
  unfoldable pub relevant : Signature → String → Event → Bool
  relevant s actor e =
      ((not (any (str_eq s.name) web_context_signatures)
          || event_is_web web_indicator e (scan_text e))
        && found s.pattern (scan_text e))
      && str_eq (actor_of e) actor

  gate :
      (web_only is_web hit same : Bool)
      → ((if web_only && not is_web then false else hit) && same)
        ≡ (((not web_only || is_web) && hit) && same)
  gate web_only is_web hit same = ground arith

  count_if-relevant :
      (s : Signature) (actor : String) (events : List Event)
      → count_if (λ e. fires web_indicator found s e && str_eq (actor_of e) actor) events
        ≡ count_if (relevant s actor) events
  unfolding fires relevant count_if
  count_if-relevant s actor [] = refl
  count_if-relevant s actor (e ∷ es) =
      rw
        (
          gate (any (str_eq s.name) web_context_signatures)
              (event_is_web web_indicator e (scan_text e)) (found s.pattern (scan_text e))
              (str_eq (actor_of e) actor),
          count_if-relevant s actor es,
        )
        refl

  module _ (events : List Event) (s : Signature) (actor : String) (q : ℕ → Bool) where
    group_hit :
        (k : String) (indexes : List ℕ)
        → hit (on_actor actor q) (signature_group web_indicator found events s (k, indexes))
          ≡ (str_eq k actor && q (length indexes))
    unfolding signature_group make_finding
    group_hit k indexes = hit_actor actor q _

    tested : count_if (on_actor actor q) (signature_findings web_indicator found events s) ≡ (
        if leb 1 (count_if (relevant s actor) events) && q (count_if (relevant s actor) events)
        then 1
        else 0)
    unfolding signature_findings
    tested =
        let mine =
          positions (λ e. fires web_indicator found s e && str_eq (actor_of e) actor) 0 events in
        tally-positions str_eq str_eq_iff (signature_group web_indicator found events s)
          (on_actor actor q) actor (λ k indexes other. ground (arith, other, group_hit k indexes))
          (fires web_indicator found s) actor_of events
        ∙ rw
            (
              group_hit actor mine,
              length-positions (λ e. fires web_indicator found s e && str_eq (actor_of e) actor) 0
                  events,
              count_if-relevant s actor events,
              str_eq_refl actor,
            )
            refl

  -- A threat signature has one finding on an actor of whom an event shows its pattern, where a web signature looks
  -- at web traffic only; it counts those events, and there is no other finding on the actor.
  pub signature_findings-relevant :
      (events : List Event) (s : Signature) (actor : String)
      → (count_if
            (on_actor actor (λ n. n == count_if (relevant s actor) events))
            (signature_findings web_indicator found events s)
          ≡ (if leb 1 (count_if (relevant s actor) events) then 1 else 0))
        × (count_if
              (on_actor actor (λ n. not (n == count_if (relevant s actor) events)))
              (signature_findings web_indicator found events s)
            ≡ 0)
  signature_findings-relevant events s actor =
      let n = count_if (relevant s actor) events in
      ground (arith, tested events s actor (λ m. m == n), tested events s actor (λ m. not (m == n)))
