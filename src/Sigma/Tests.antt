-- ===== src/Sigma/Tests.antt =====
-- Sigma conditions, rules and documents at concrete inputs.
use aegisiq.Sigma.Condition.{evaluate_condition}
use aegisiq.Sigma.Grammar.{Formula, lit, neg, both, either, emit_or, denote}
use aegisiq.Sigma.Loaded.{load_rules_returns, supported, harmless, all_documents, rule_count}
use aegisiq.Sigma.Loading.{load_rules}
use aegisiq.Sigma.Matching.{SigmaRule, rule_matches, match_one}
use aegisiq.Sigma.Modifiers.{rule_matches-one_of_them, rule_matches-unsupported, some_selection}
use aegisiq.Sigma.Parser.{eval_boolean_expression}
use aegisiq.Sigma.Run.{done, out_of_fuel}
use aegisiq.Sigma.Total.{eval_boolean_expression-total}
use aegisiq.Sigma.Values.{Python}
use aegisiq.Sigma.Written.{eval_boolean_expression-write, write}
use aegisiq.Models.Json.{
  Json, null, boolean, number, text, arr, obj, Items, nil, cons, Fields, end, field,
}
use aegisiq.Models.Log.{Severity}
use aegisiq.Prelude.{
  ℕ, String, ◌≡◌, refl, ◌≢◌, Bool, true, false, Option, none, some, List, [], ◌∷◌, if◌then◌else◌,
  str_eq, is_some, codes, is_space, lower, strip, contains, before, split, where_rows, any, all,
  count_if,
}

abbrev python : Python
python = record {
  compile = λ pattern. if str_eq pattern "(" then none else some (λ s. contains pattern s);
  repr = λ v. "[]";
  technique = λ t. none;
  tactic = λ t. none;
}

-- not (a or b) and c
abbrev formula : Formula
formula = both (neg (either (lit false) (lit true))) (lit true)

eval_boolean_expression-total_example :
    eval_boolean_expression (codes "not (true and False)") ≢ out_of_fuel
eval_boolean_expression-total_example = eval_boolean_expression-total (codes "not (true and False)")

eval_boolean_expression-write_example :
    eval_boolean_expression (write (emit_or formula)) ≡ done (denote formula)
eval_boolean_expression-write_example = eval_boolean_expression-write formula

abbrev two : List (List ℕ × Bool)
two = (codes "sel", true) ∷ (codes "filter", false) ∷ []

abbrev cidr : Fields
cidr = field "sel" (obj (field "IpAddress|cidr" (text "10.0.0.0/8") end)) end

abbrev sigma_rule : String → Fields → SigmaRule
sigma_rule condition detection = record {
  title = "t";
  level = "high";
  severity = Severity.high;
  description = "";
  mitre = none;
  kill_chain = none;
  detection = detection;
  condition = condition;
  rule_id = none;
  tags = [];
  source_file = none;
}

abbrev event : Fields
event = field "source_ip" (text "10.1.2.3") end

rule_matches-one_of_them_example :
    rule_matches python (sigma_rule "1 of them" cidr) event "line"
    ≡ some_selection python cidr event "line"
rule_matches-one_of_them_example =
    rule_matches-one_of_them python (sigma_rule "1 of them" cidr) event "line" refl

rule_matches-unsupported_example :
    (match_one python "IpAddress|cidr" (text "10.0.0.0/8") event "line" ≡ false)
    × (rule_matches python (sigma_rule "not 1 of them" cidr) event "line" ≡ true)
unfolding aegisiq.Sigma.Modifiers.unsupported aegisiq.Sigma.Matching.modifiers_of
    aegisiq.Prelude.split any str_eq aegisiq.Prelude.lower aegisiq.Prelude.strip
    aegisiq.Sigma.Values.resolve_field aegisiq.Models.Json.get aegisiq.Prelude.before
rule_matches-unsupported_example =
    rule_matches-unsupported python (sigma_rule "not 1 of them" cidr) "sel" "IpAddress|cidr"
      (text "10.0.0.0/8") event "line" "10.1.2.3" [] refl refl refl refl

-- A rule, a document that is none, and a rule whose tags are the number 5.
abbrev rule_document : Json → Json
rule_document tags =
    obj (field "tags" tags (field "detection" (obj (field "condition" (text "sel") cidr)) end))

abbrev files : List (String × Option (List Json))
files =
    ("a.yml", some (rule_document (arr (cons (text "attack.t1110") nil)) ∷ null ∷ []))
    ∷ ("b.yml", none)
    ∷ ("c.yml", some (rule_document (number "5") ∷ []))
    ∷ []

load_rules_returns_example :
    (is_some (load_rules python true (some files)) ≡ all (harmless python) (all_documents files))
    × (is_some (load_rules python true (some files)) ≡ true
        → rule_count (load_rules python true (some files))
          ≡ count_if supported (all_documents files))
load_rules_returns_example = load_rules_returns python files

-- The one bad document raises, and no rule is loaded.
raises : load_rules python true (some files) ≡ none
unfolding load_rules aegisiq.Models.Json.get str_eq contains is_some aegisiq.Prelude.lower
raises = refl

precedence : evaluate_condition (codes "sel and not filter or (1 of fil*)") two ≡ true
unfolding evaluate_condition codes aegisiq.Prelude.is_space any aegisiq.Prelude.where_rows
    aegisiq.Sigma.Tokens.tokenize_condition is_some aegisiq.Sigma.Parser.parse_or
    aegisiq.Sigma.Parser.close
precedence = refl

unknown_name : evaluate_condition (codes "not missing") two ≡ false
unfolding evaluate_condition codes aegisiq.Prelude.is_space any
unknown_name = refl
