-- ===== src/Sigma/Condition.antt =====
-- `_evaluate_condition` of backend/app/detection/sigma.py, over the code points of the condition and
-- of the names of the selections. Letters, digits and blanks are ASCII ones.
use aegisiq.Sigma.Run.{done, syntax_error, out_of_fuel}
use aegisiq.Sigma.Tokens.{lower_code, is_word, behind_word}
use aegisiq.Sigma.Parser.{eval_boolean_expression}
use aegisiq.Prelude.{
  ℕ, zero, suc, ◌-◌, Bool, true, false, ◌&&◌, ◌||◌, Option, none, some, List, [], ◌∷◌, ◌++◌, map,
  leb, ◌==◌, if◌then◌else◌, is_space, length, where_rows, any, all,
}

-- the selections' names with their outcomes, in the order of the dictionary
abbrev pub Outcomes : Type 0
Outcomes = List (List ℕ × Bool)

unfoldable pub codes_eq : List ℕ → List ℕ → Bool
codes_eq [] [] = true
codes_eq [] (y ∷ ys) = false
codes_eq (x ∷ xs) [] = false
codes_eq (x ∷ xs) (y ∷ ys) = x == y && codes_eq xs ys

-- `s.startswith(prefix)`
unfoldable pub begins_with : List ℕ → List ℕ → Bool
begins_with s [] = true
begins_with [] (p ∷ prefix) = false
begins_with (c ∷ s) (p ∷ prefix) = c == p && begins_with s prefix

-- `part in s`
unfoldable pub occurs_in : List ℕ → List ℕ → Bool
unfolding begins_with
occurs_in part [] = begins_with [] part
occurs_in part (c ∷ s) = begins_with (c ∷ s) part || occurs_in part s

-- the characters at the front that pass a test, and what is behind them
unfoldable pub while_chars : (ℕ → Bool) → List ℕ → List ℕ
while_chars p [] = []
while_chars p (c ∷ cs) = let later = while_chars p cs in if p c then c ∷ later else []

unfoldable pub behind_chars : (ℕ → Bool) → List ℕ → List ℕ
behind_chars p [] = []
behind_chars p (c ∷ cs) = let later = behind_chars p cs in if p c then later else c ∷ cs

-- the text without the characters at its end that pass a test
unfoldable pub cut_end : (ℕ → Bool) → List ℕ → List ℕ
cut_end p [] = []
cut_end p (c ∷ cs) = elim (cut_end p cs) [ [] ↦ if p c then [] else c ∷ [] | d ∷ ds ↦ c ∷ d ∷ ds ]

-- `condition.strip()`
unfoldable pub strip_codes : List ℕ → List ℕ
unfolding behind_chars cut_end
strip_codes cs = cut_end is_space (behind_chars is_space cs)

-- the text of a truth value
abbrev pub true_text : List ℕ
true_text = 84 ∷ 114 ∷ 117 ∷ 101 ∷ []

abbrev pub false_text : List ℕ
false_text = 70 ∷ 97 ∷ 108 ∷ 115 ∷ 101 ∷ []

abbrev pub literal : Bool → List ℕ
literal b = if b then true_text else false_text

-- the outcomes of the selections that a pattern names
unfoldable pub chosen : List ℕ → Outcomes → List Bool
unfolding codes_eq begins_with cut_end
chosen pattern results =
    if codes_eq pattern (116 ∷ 104 ∷ 101 ∷ 109 ∷ []) || codes_eq pattern (42 ∷ [])
    then map (λ r. r.1) results
    else map (λ r. r.1) (where_rows (λ r. begins_with r.0 (cut_end (λ c. c == 42) pattern)) results)

-- `_quantifier`
unfoldable pub quantifier : Bool → List ℕ → Outcomes → Bool
unfolding chosen
quantifier match_all pattern results = elim (chosen pattern results) [
  | [] ↦ false
  | v ∷ vs ↦ if match_all then all (λ b. b) (v ∷ vs) else any (λ b. b) (v ∷ vs)
]

-- `\s+` at the front of a text: what is behind it
unfoldable pub behind_space : List ℕ → Option (List ℕ)
unfolding behind_chars
behind_space [] = none
behind_space (c ∷ cs) = if is_space c then some (behind_chars is_space cs) else none

-- one part of a pattern after another
abbrev pub and_then {ℓ κ} : {A : Type ℓ} {B : Type κ} → Option A → (A → Option B) → Option B
and_then none f = none
and_then (some a) f = f a

-- `[A-Za-z0-9_*]`
abbrev pub in_pattern : ℕ → Bool
in_pattern n = is_word n || n == 42

-- `[A-Za-z0-9_*]+` at the front of a text: the pattern, and what is behind it
unfoldable pub read_pattern : List ℕ → Option (List ℕ × List ℕ)
unfolding while_chars behind_chars
read_pattern [] = none
read_pattern (c ∷ cs) =
    if in_pattern c
    then some (while_chars in_pattern (c ∷ cs), behind_chars in_pattern (c ∷ cs))
    else none

-- `\s+of\s+([A-Za-z0-9_*]+)` behind the quantity
unfoldable pub behind_quantity : List ℕ → Option (List ℕ × List ℕ)
unfolding behind_space behind_word read_pattern
behind_quantity cs = and_then (behind_space cs) λ word.
    and_then (behind_word (111 ∷ 102 ∷ []) word) λ gap. and_then (behind_space gap) read_pattern

-- The pattern of quantifiers at a position, given whether a word character stands before it: whether
-- it asks for all, the names it asks for, and the text behind it.
unfoldable pub match_quantifier : Bool → List ℕ → Option (Bool × (List ℕ × List ℕ))
unfolding behind_quantity behind_word
match_quantifier inside cs = if inside then none else elim (behind_word (97 ∷ 108 ∷ 108 ∷ []) cs) [
  | some rest ↦ and_then (behind_quantity rest) λ m. some (true, m)
  | none ↦ elim (behind_word (49 ∷ []) cs) [
    | some rest ↦ and_then (behind_quantity rest) λ m. some (false, m)
    | none ↦ none
  ]
]

-- The first `re.sub`: the first argument counts the characters that the last match has taken.
unfoldable pub sub_quantifiers : Outcomes → ℕ → Bool → List ℕ → List ℕ
unfolding match_quantifier quantifier
sub_quantifiers results skip inside [] = []
sub_quantifiers results (suc skip) inside (c ∷ cs) = sub_quantifiers results skip (is_word c) cs
sub_quantifiers results zero inside (c ∷ cs) = elim (match_quantifier inside (c ∷ cs)) [
  | none ↦ c ∷ sub_quantifiers results zero (is_word c) cs
  | some (match_all, (pattern, rest)) ↦
      literal (quantifier match_all pattern results)
      ++ sub_quantifiers results (length cs - length rest) (is_word c) cs
]

-- `[A-Za-z_]`
abbrev pub starts_name : ℕ → Bool
starts_name n = leb 97 (lower_code n) && leb (lower_code n) 122 || n == 95

-- the word as the condition's grammar knows it
unfoldable pub is_keyword : List ℕ → Bool
unfolding codes_eq
is_keyword name = any (codes_eq (map lower_code name)) (
    (97 ∷ 110 ∷ 100 ∷ [])
    ∷ (111 ∷ 114 ∷ [])
    ∷ (110 ∷ 111 ∷ 116 ∷ [])
    ∷ (116 ∷ 114 ∷ 117 ∷ 101 ∷ [])
    ∷ (102 ∷ 97 ∷ 108 ∷ 115 ∷ 101 ∷ [])
    ∷ [])

-- `__UNKNOWN__`
abbrev pub unknown_text : List ℕ
unknown_text = 95 ∷ 95 ∷ 85 ∷ 78 ∷ 75 ∷ 78 ∷ 79 ∷ 87 ∷ 78 ∷ 95 ∷ 95 ∷ []

unfoldable pub outcome_of : List ℕ → Outcomes → Option Bool
unfolding codes_eq
outcome_of name [] = none
outcome_of name ((k, v) ∷ results) =
    let later = outcome_of name results in if codes_eq name k then some v else later

-- `_name_repl`
unfoldable pub name_repl : Outcomes → List ℕ → List ℕ
unfolding is_keyword outcome_of
name_repl results name =
    if is_keyword name
    then name
    else elim (outcome_of name results) [ none ↦ unknown_text | some v ↦ literal v ]

-- The second `re.sub`: the first argument counts the characters that the last match has taken.
unfoldable pub sub_names : Outcomes → ℕ → List ℕ → List ℕ
unfolding name_repl while_chars
sub_names results skip [] = []
sub_names results (suc skip) (c ∷ cs) = sub_names results skip cs
sub_names results zero (c ∷ cs) = elim (starts_name c) [
  | true ↦
      name_repl results (c ∷ while_chars is_word cs)
      ++ sub_names results (length (while_chars is_word cs)) cs
  | false ↦ c ∷ sub_names results zero cs
]

-- The guard against unknown names, and the handlers of errors. That the fuel never runs out is proved
-- of `eval_boolean_expression`.
unfoldable pub judge : List ℕ → Bool
unfolding occurs_in eval_boolean_expression
judge substituted =
    if occurs_in unknown_text substituted
    then false
    else elim (eval_boolean_expression substituted) [
      | done value ↦ value
      | syntax_error ↦ false
      | out_of_fuel ↦ false
    ]

unfoldable pub substitute : List ℕ → Outcomes → List ℕ
unfolding strip_codes sub_quantifiers sub_names
substitute condition results =
    sub_names results zero (sub_quantifiers results zero false (strip_codes condition))

-- `_evaluate_condition`
unfoldable pub evaluate_condition : List ℕ → Outcomes → Bool
unfolding substitute judge
evaluate_condition condition results = judge (substitute condition results)
