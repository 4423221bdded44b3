-- ===== src/Sigma/Written.antt =====
-- What a formula writes as text evaluates to its value.
use aegisiq.Sigma.Grammar.{Formula, denote, emit_or}
use aegisiq.Sigma.Parser.{eval_boolean_expression, eval_tokenized}
use aegisiq.Sigma.Run.{done}
use aegisiq.Sigma.RoundTrip.{eval_tokens-emit_or}
use aegisiq.Sigma.Tokens.{
  Token, left_paren, right_paren, kw_and, kw_or, kw_not, kw_true, kw_false, tokens_from,
  tokenize_condition, prepend,
}
use aegisiq.Prelude.{ℕ, ◌≡◌, refl, ap, ◌∙◌, false, some, List, [], ◌∷◌, ◌++◌, is_some, is_space}

-- The code points of a token, as Python prints the two truth values.
abbrev pub spell : Token → List ℕ
spell left_paren = 40 ∷ []
spell right_paren = 41 ∷ []
spell kw_and = 97 ∷ 110 ∷ 100 ∷ []
spell kw_or = 111 ∷ 114 ∷ []
spell kw_not = 110 ∷ 111 ∷ 116 ∷ []
spell kw_true = 84 ∷ 114 ∷ 117 ∷ 101 ∷ []
spell kw_false = 70 ∷ 97 ∷ 108 ∷ 115 ∷ 101 ∷ []

-- the tokens, each with a blank behind it
pub write : List Token → List ℕ
write [] = []
write (t ∷ ts) = spell t ++ 32 ∷ write ts

one_token :
    (t : Token) (cs : List ℕ)
    → tokens_from 0 false (spell t ++ 32 ∷ cs) ≡ prepend t (tokens_from 0 false cs)
unfolding tokens_from is_space aegisiq.Prelude.is_some
one_token left_paren cs = refl
one_token right_paren cs = refl
one_token kw_and cs = refl
one_token kw_or cs = refl
one_token kw_not cs = refl
one_token kw_true cs = refl
one_token kw_false cs = refl

tokens_from-write : (ts : List Token) → tokens_from 0 false (write ts) ≡ some ts
unfolding write tokens_from prepend
tokens_from-write [] = refl
tokens_from-write (t ∷ ts) = one_token t (write ts) ∙ ap (prepend t) (tokens_from-write ts)

-- The text of a formula, with brackets only where they are needed, evaluates to the value of the formula.
pub eval_boolean_expression-write :
    (c : Formula) → eval_boolean_expression (write (emit_or c)) ≡ done (denote c)
unfolding eval_boolean_expression tokenize_condition eval_tokenized
eval_boolean_expression-write c =
    ap eval_tokenized (tokens_from-write (emit_or c)) ∙ eval_tokens-emit_or c
