-- ===== src/Sigma/Tokens.antt =====
-- `_tokenize_condition` of backend/app/detection/sigma.py, over the code points of the text. The
-- letters that the pattern ignores the case of, and the word characters, are ASCII ones.
use aegisiq.Prelude.{
  ℕ, zero, suc, ◌+◌, ◌-◌, Bool, true, false, not, ◌&&◌, ◌||◌, Option, none, some, List, [], ◌∷◌,
  leb, ◌==◌, if◌then◌else◌, is_some, is_space,
}

pub data Token : Type 0 where
  left_paren right_paren kw_and kw_or kw_not kw_true kw_false : Token

-- the length of the text that a token matches
unfoldable pub width : Token → ℕ
width left_paren = 1
width right_paren = 1
width kw_and = 3
width kw_or = 2
width kw_not = 3
width kw_true = 4
width kw_false = 5

abbrev pub lower_code : ℕ → ℕ
lower_code n = if leb 65 n && leb n 90 then n + 32 else n

-- `\w`
abbrev pub is_word : ℕ → Bool
is_word n = leb 97 (lower_code n) && leb (lower_code n) 122 || (leb 48 n && leb n 57 || n == 95)

-- What is left of the text behind the word, whose letters are small.
unfoldable pub behind_word : List ℕ → List ℕ → Option (List ℕ)
behind_word [] cs = some cs
behind_word (w ∷ ws) [] = none
behind_word (w ∷ ws) (c ∷ cs) = elim (lower_code c == w) [ true ↦ behind_word ws cs | false ↦ none ]

-- `\b` behind a word
unfoldable pub at_boundary : Option (List ℕ) → Bool
at_boundary none = false
at_boundary (some []) = true
at_boundary (some (c ∷ cs)) = not (is_word c)

-- the pattern `_COND_TOKEN` at a position, given whether a word character stands before it
unfoldable pub match_token : Bool → List ℕ → Option Token
unfolding behind_word at_boundary
match_token inside [] = none
match_token inside (c ∷ cs) =
    if c == 40
    then some left_paren
    else if c == 41
    then some right_paren
    else if not inside && at_boundary (behind_word (97 ∷ 110 ∷ 100 ∷ []) (c ∷ cs))
    then some kw_and
    else if not inside && at_boundary (behind_word (111 ∷ 114 ∷ []) (c ∷ cs))
    then some kw_or
    else if not inside && at_boundary (behind_word (110 ∷ 111 ∷ 116 ∷ []) (c ∷ cs))
    then some kw_not
    else if is_some (behind_word (116 ∷ 114 ∷ 117 ∷ 101 ∷ []) (c ∷ cs))
    then some kw_true
    else if is_some (behind_word (102 ∷ 97 ∷ 108 ∷ 115 ∷ 101 ∷ []) (c ∷ cs))
    then some kw_false
    else none

unfoldable pub prepend : Token → Option (List Token) → Option (List Token)
prepend t none = none
prepend t (some ts) = some (t ∷ ts)

-- The loop of `_tokenize_condition`: the first argument counts the characters up to `pos`, which the
-- last match has taken. The result is none where the source raises.
unfoldable pub tokens_from : ℕ → Bool → List ℕ → Option (List Token)
unfolding match_token prepend width
tokens_from skip inside [] = some []
tokens_from (suc skip) inside (c ∷ cs) = tokens_from skip (is_word c) cs
tokens_from zero inside (c ∷ cs) = elim (is_space c) [
  | true ↦ tokens_from zero (is_word c) cs
  | false ↦ elim (match_token inside (c ∷ cs)) [
    | none ↦ none
    | some t ↦ prepend t (tokens_from (width t - 1) (is_word c) cs)
  ]
]

unfoldable pub tokenize_condition : List ℕ → Option (List Token)
unfolding tokens_from
tokenize_condition expr = tokens_from zero false expr
