-- ===== src/Sigma/Matching.antt =====
-- `_match_one`, `_match_selection` and `rule_matches` of backend/app/detection/sigma.py.
use aegisiq.Sigma.Values.{Python, elements, str, resolve_field}
use aegisiq.Sigma.Condition.{Outcomes, evaluate_condition}
use aegisiq.Models.Json.{Json, null, arr, obj, Items, nil, cons, Fields, end, field}
use aegisiq.Models.Log.{Severity}
use aegisiq.Prelude.{
  String, Bool, true, false, ◌&&◌, ◌||◌, Option, none, some, List, [], ◌∷◌, map, if◌then◌else◌,
  str_eq, codes, lower, strip, contains, has_prefix, split, any, all,
}

pub record SigmaRule : Type 0 where
  pub title : String
  pub level : String
  pub severity : Severity
  pub description : String
  pub mitre : Option String
  pub kill_chain : Option String
  pub detection : Fields
  pub condition : String
  pub rule_id : Option Json
  pub tags : List String
  pub source_file : Option String

unfoldable pub rest_of {ℓ} : {A : Type ℓ} → List A → List A
rest_of [] = []
rest_of (x ∷ xs) = xs

-- `[p.strip().lower() for p in parts[1:]]`
unfoldable pub modifiers_of : String → List String
unfolding rest_of
modifiers_of spec = map (λ p. lower (strip p)) (rest_of (split "|" spec))

-- `name in modifiers`
unfoldable pub has_modifier : String → List String → Bool
has_modifier name modifiers = any (str_eq name) modifiers

unfoldable pub no_modifiers : List String → Bool
no_modifiers [] = true
no_modifiers (m ∷ ms) = false

-- `s.endswith(suffix)`
unfoldable pub has_suffix : String → String → Bool
has_suffix String.[] suffix = str_eq "" suffix
has_suffix (String.◌∷◌ c s) suffix = str_eq (String.◌∷◌ c s) suffix || has_suffix s suffix

-- one value of the event against one expected text, both in small letters
unfoldable pub compare_value : List String → String → String → Bool
unfolding has_modifier no_modifiers has_suffix
compare_value modifiers expected actual =
    has_modifier "contains" modifiers && contains expected actual
    || (has_modifier "startswith" modifiers && has_prefix actual expected
        || (has_modifier "endswith" modifiers && has_suffix actual expected
            || no_modifiers modifiers && str_eq actual expected))

-- an expected value: `"" if e is None else str(e)`
unfoldable pub expected_text : Python → Json → String
unfolding str
expected_text py null = ""
expected_text py v = str py v

unfoldable pub expected_values : Python → Json → List String
unfolding expected_text elements
expected_values py (arr xs) = map (expected_text py) (elements xs)
expected_values py v = expected_text py v ∷ []

unfoldable pub is_dict : Json → Bool
is_dict (obj fs) = true
is_dict _ = false

module _ (py : Python) where
  -- `_cmp`, for a field of the event that has the given values
  unfoldable pub compare_values : List String → List String → String → String → Bool
  unfolding has_modifier compare_value
  compare_values modifiers [] raw_log expected =
      if has_modifier "re" modifiers
      then elim (py.compile expected) [ none ↦ false | some search ↦ search raw_log ]
      else contains (lower expected) (lower raw_log)
  compare_values modifiers (a ∷ actual) raw_log expected =
      if has_modifier "re" modifiers
      then elim (py.compile expected) [ none ↦ false | some search ↦ any search (a ∷ actual) ]
      else any (λ v. compare_value modifiers (lower expected) (lower v)) (a ∷ actual)

  -- the last lines of `_match_one`
  unfoldable pub match_values : List String → List String → String → List String → Bool
  unfolding has_modifier compare_values
  match_values modifiers actual raw_log expected =
      let compared = compare_values modifiers actual raw_log in
      if has_modifier "all" modifiers then all compared expected else any compared expected

  -- `_match_one`
  unfoldable pub match_one : String → Json → Fields → String → Bool
  unfolding modifiers_of match_values expected_values resolve_field
  match_one spec expected event raw_log =
      match_values (modifiers_of spec) (resolve_field py spec event) raw_log
        (expected_values py expected)

  -- a map of fields to expected values
  unfoldable pub match_fields : Fields → Fields → String → Bool
  unfolding match_one
  match_fields end event raw_log = true
  match_fields (field spec expected fs) event raw_log =
      match_one spec expected event raw_log && match_fields fs event raw_log

  -- a list of keywords
  unfoldable pub match_keywords : Items → String → Bool
  unfolding str
  match_keywords nil raw_log = false
  match_keywords (cons k ks) raw_log =
      contains (lower (str py k)) (lower raw_log) || match_keywords ks raw_log

  -- a list of maps
  unfoldable pub match_maps : Items → Fields → String → Bool
  unfolding match_fields
  match_maps nil event raw_log = false
  match_maps (cons (obj fs) xs) event raw_log =
      match_fields fs event raw_log || match_maps xs event raw_log
  match_maps (cons _ xs) event raw_log = match_maps xs event raw_log

  -- `_match_selection`
  unfoldable pub match_selection : Json → Fields → String → Bool
  unfolding is_dict match_maps match_keywords match_fields str elements
  match_selection (arr xs) event raw_log =
      if all is_dict (elements xs) then match_maps xs event raw_log else match_keywords xs raw_log
  match_selection (obj fs) event raw_log = match_fields fs event raw_log
  match_selection sel event raw_log = contains (lower (str py sel)) (lower raw_log)

  -- the outcomes of a rule's selections
  unfoldable pub outcomes : Fields → Fields → String → Outcomes
  unfolding match_selection
  outcomes end event raw_log = []
  outcomes (field name sel fs) event raw_log =
      (codes name, match_selection sel event raw_log) ∷ outcomes fs event raw_log

  unfoldable pub rule_matches : SigmaRule → Fields → String → Bool
  unfolding outcomes evaluate_condition
  rule_matches rule event raw_log =
      evaluate_condition (codes rule.condition) (outcomes rule.detection event raw_log)
