-- ===== src/Analysis/SigmaPass.antt =====
-- `_detect_sigma` of backend/app/analysis/engine.py: the Sigma rules on the events of a file. How an
-- event reads as a dict, and what Python's own functions answer, are parameters.
use aegisiq.Analysis.Events.{Event, Finding, make_finding, sigma_rule}
use aegisiq.Analysis.Signatures.{actor_of}
use aegisiq.Analysis.Groups.{collect, group}
use aegisiq.Models.Json.{Fields}
use aegisiq.Sigma.Matching.{SigmaRule, rule_matches}
use aegisiq.Sigma.Values.{Python}
use aegisiq.Prelude.{
  ℕ, String, Option, some, List, [], ◌∷◌, ◌++◌, if◌then◌else◌, str_eq, concat, length,
}

module _ (py : Python) (as_dict : Event → Fields) (events : List Event) (rule : SigmaRule) where
  unfoldable pub matching_actor : Event → List String
  matching_actor e = if rule_matches py rule (as_dict e) e.raw_log then actor_of e ∷ [] else []

  unfoldable pub sigma_group : String × List ℕ → Option Finding
  sigma_group (actor, indexes) = some (
      make_finding events
        (record {
          name = concat "Sigma · " rule.title;
          rule_type = "sigma";
          mitre_id = rule.mitre;
          kill_chain_phase = rule.kill_chain;
          severity = rule.severity;
        })
        actor (length indexes) indexes (sigma_rule rule.rule_id rule.level))

  unfoldable pub sigma_findings : List Finding
  unfolding matching_actor sigma_group
  sigma_findings = collect sigma_group (group str_eq matching_actor 0 events [])

module _ (py : Python) (as_dict : Event → Fields) (events : List Event) where
  unfoldable pub detect_sigma : List SigmaRule → List Finding
  unfolding sigma_findings
  detect_sigma [] = []
  detect_sigma (rule ∷ rules) = sigma_findings py as_dict events rule ++ detect_sigma rules
