-- ===== src/Sigma/Quantified.antt =====
-- The quantified conditions of Sigma rules, from their text.
use aegisiq.Sigma.Condition.{
  Outcomes, evaluate_condition, substitute, judge, sub_quantifiers, sub_names, strip_codes,
  quantifier, literal,
}
use aegisiq.Sigma.Parser.{parse_or}
use aegisiq.Sigma.Tokens.{tokenize_condition}
use aegisiq.Prelude.{
  ℕ, zero, ◌≡◌, refl, ap, ◌∙◌, Bool, true, false, not, ◌&&◌, List, [], ◌∷◌, ◌++◌, map, arith, leb,
  is_some, is_space, length, any, all,
}

-- "1 of them"
abbrev pub one_of_them : List ℕ
one_of_them = 49 ∷ 32 ∷ 111 ∷ 102 ∷ 32 ∷ 116 ∷ 104 ∷ 101 ∷ 109 ∷ []

-- "all of them"
abbrev pub all_of_them : List ℕ
all_of_them = 97 ∷ 108 ∷ 108 ∷ 32 ∷ 111 ∷ 102 ∷ 32 ∷ 116 ∷ 104 ∷ 101 ∷ 109 ∷ []

-- "not 1 of them"
abbrev pub not_one_of_them : List ℕ
not_one_of_them = 110 ∷ 111 ∷ 116 ∷ 32 ∷ one_of_them

judge-literal :
    (results : Outcomes) (b : Bool) → judge (sub_names results zero (literal b ++ [])) ≡ b
unfolding judge sub_names any tokenize_condition is_space is_some parse_or
judge-literal results true = refl
judge-literal results false = refl

judge-not :
    (results : Outcomes) (b : Bool)
    → judge (sub_names results zero (110 ∷ 111 ∷ 116 ∷ 32 ∷ literal b ++ [])) ≡ not b
unfolding judge sub_names any tokenize_condition is_space is_some parse_or
judge-not results true = refl
judge-not results false = refl

any-map : (results : Outcomes) → any (λ b. b) (map (λ r. r.1) results) ≡ any (λ r. r.1) results
unfolding any
any-map [] = refl
any-map (r ∷ results) = ground (arith, any-map results)

all-map : (results : Outcomes) → all (λ b. b) (map (λ r. r.1) results) ≡ all (λ r. r.1) results
unfolding all
all-map [] = refl
all-map (r ∷ results) = ground (arith, all-map results)

quantifier_one :
    (results : Outcomes)
    → quantifier false (116 ∷ 104 ∷ 101 ∷ 109 ∷ []) results ≡ any (λ r. r.1) results
unfolding quantifier any
quantifier_one [] = refl
quantifier_one (r ∷ results) = any-map (r ∷ results)

quantifier-all :
    (results : Outcomes)
    → quantifier true (116 ∷ 104 ∷ 101 ∷ 109 ∷ []) results
      ≡ (leb 1 (length results) && all (λ r. r.1) results)
unfolding quantifier all
quantifier-all [] = refl
quantifier-all (r ∷ results) = ground (arith, all-map (r ∷ results))

-- For every set of selections: the text "1 of them" holds if some selection matches, the text "all of
-- them" if there is a selection and all match, and "not 1 of them" if none matches.
pub evaluate_condition-them :
    (results : Outcomes)
    → (evaluate_condition one_of_them results ≡ any (λ r. r.1) results)
      × ((evaluate_condition all_of_them results
            ≡ (leb 1 (length results) && all (λ r. r.1) results))
          × (evaluate_condition not_one_of_them results ≡ not (any (λ r. r.1) results)))
unfolding evaluate_condition substitute sub_quantifiers strip_codes is_space
evaluate_condition-them results = (
  judge-literal results _ ∙ quantifier_one results,
  (
    judge-literal results _ ∙ quantifier-all results,
    judge-not results _ ∙ ap not (quantifier_one results),
  ),
)
