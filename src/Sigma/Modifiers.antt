-- ===== src/Sigma/Modifiers.antt =====
-- What whole rules of backend/app/detection/sigma.py decide: quantified conditions, and modifiers that
-- the source does not know.
use aegisiq.Sigma.Condition.{evaluate_condition}
use aegisiq.Sigma.Matching.{
  SigmaRule, rule_matches, outcomes, match_selection, match_fields, match_one, modifiers_of,
  has_modifier, no_modifiers, compare_values, compare_value, expected_values, match_values,
}
use aegisiq.Sigma.Quantified.{evaluate_condition-them}
use aegisiq.Sigma.Values.{Python, resolve_field}
use aegisiq.Models.Json.{Json, obj, Fields, end, field}
use aegisiq.Prelude.{
  String, ◌≡◌, refl, ap, ◌∙◌, Bool, true, false, not, ◌&&◌, ◌||◌, List, [], ◌∷◌, arith, codes,
  lower, any,
}

-- The modifiers are there, and `_cmp` tests for none of them.
unfoldable pub unsupported : List String → Bool
unfolding has_modifier no_modifiers
unsupported modifiers =
    not (no_modifiers modifiers)
    && not (
        has_modifier "re" modifiers
        || has_modifier "contains" modifiers
        || has_modifier "startswith" modifiers
        || has_modifier "endswith" modifiers
        || has_modifier "all" modifiers)

-- some selection of the rule matches the event
unfoldable pub some_selection : Python → Fields → Fields → String → Bool
some_selection py end event raw_log = false
some_selection py (field name sel fs) event raw_log =
    match_selection py sel event raw_log || some_selection py fs event raw_log

any_outcome :
    (py : Python) (fs event : Fields) (raw_log : String)
    → any (λ r. r.1) (outcomes py fs event raw_log) ≡ some_selection py fs event raw_log
unfolding any outcomes some_selection
any_outcome py end event raw_log = refl
any_outcome py (field name sel fs) event raw_log =
    ap (λ b. match_selection py sel event raw_log || b) (any_outcome py fs event raw_log)

-- A rule whose condition is "1 of them" matches an event if and only if some selection of it does.
pub rule_matches-one_of_them :
    (py : Python) (rule : SigmaRule) (event : Fields) (raw_log : String)
    → rule.condition ≡ "1 of them"
    → rule_matches py rule event raw_log ≡ some_selection py rule.detection event raw_log
unfolding rule_matches codes
rule_matches-one_of_them py rule event raw_log h =
    ap (λ c. evaluate_condition (codes c) (outcomes py rule.detection event raw_log)) h
    ∙ ((evaluate_condition-them (outcomes py rule.detection event raw_log)).0
        ∙ any_outcome py rule.detection event raw_log)

compare_value-unsupported :
    (modifiers : List String) (expected actual : String)
    → unsupported modifiers ≡ true
    → compare_value modifiers expected actual ≡ false
unfolding unsupported compare_value
compare_value-unsupported modifiers expected actual h = ground (arith, h)

none_compared :
    (modifiers : List String) (expected : String) (actual : List String)
    → unsupported modifiers ≡ true
    → any (λ v. compare_value modifiers expected (lower v)) actual ≡ false
unfolding any
none_compared modifiers expected [] h = refl
none_compared modifiers expected (a ∷ actual) h = ground (
  arith,
  compare_value-unsupported modifiers expected (lower a) h,
  none_compared modifiers expected actual h,
)

any-false : (f : String → Bool) (xs : List String) → ((x : String) → f x ≡ false) → any f xs ≡ false
unfolding any
any-false f [] h = refl
any-false f (x ∷ xs) h = ground (arith, h x, any-false f xs h)

compare_values-unsupported :
    (py : Python) (modifiers : List String) (a : String) (actual : List String)
    (raw_log expected : String)
    → unsupported modifiers ≡ true
    → compare_values py modifiers (a ∷ actual) raw_log expected ≡ false
unfolding compare_values unsupported
compare_values-unsupported py modifiers a actual raw_log expected h =
    ground (arith, h, none_compared modifiers (lower expected) (a ∷ actual) h)

match_values-unsupported :
    (py : Python) (modifiers : List String) (a : String) (actual : List String) (raw_log : String)
    (expected : List String)
    → unsupported modifiers ≡ true
    → match_values py modifiers (a ∷ actual) raw_log expected ≡ false
unfolding match_values unsupported
match_values-unsupported py modifiers a actual raw_log expected h = ground (
  arith,
  h,
  any-false (compare_values py modifiers (a ∷ actual) raw_log) expected
      λ e. compare_values-unsupported py modifiers a actual raw_log e h,
)

-- An entry for a field that the event has, with modifiers of which the source knows none, never matches.
-- So a rule with the condition "not 1 of them" over a selection of that entry matches, whatever the
-- expected value and the rest of the event are.
pub rule_matches-unsupported :
    (py : Python) (rule : SigmaRule) (name spec : String) (expected : Json) (event : Fields)
    (raw_log a : String) (actual : List String)
    → rule.condition ≡ "not 1 of them"
    → rule.detection ≡ field name (obj (field spec expected end)) end
    → unsupported (modifiers_of spec) ≡ true
    → resolve_field py spec event ≡ a ∷ actual
    → (match_one py spec expected event raw_log ≡ false)
      × (rule_matches py rule event raw_log ≡ true)
unfolding rule_matches match_one codes some_selection match_selection match_fields
rule_matches-unsupported py rule name spec expected event raw_log a actual h hd u found =
    let unmatched : match_one py spec expected event raw_log ≡ false =
      ap (λ vs. match_values py (modifiers_of spec) vs raw_log (expected_values py expected)) found
      ∙ match_values-unsupported py (modifiers_of spec) a actual raw_log
          (expected_values py expected) u in
    let as_bool : rule_matches py rule event raw_log
        ≡ not (some_selection py rule.detection event raw_log) =
      ap (λ c. evaluate_condition (codes c) (outcomes py rule.detection event raw_log)) h
      ∙ ((evaluate_condition-them (outcomes py rule.detection event raw_log)).1.1
          ∙ ap not (any_outcome py rule.detection event raw_log)) in
    (
      unmatched,
      as_bool
          ∙ (ap (λ d. not (some_selection py d event raw_log)) hd
              ∙ ap (λ b. not (b && true || false)) unmatched),
    )
