-- ===== src/Sigma/Parser.antt =====
-- The recursive-descent parser of conditions in backend/app/detection/sigma.py. The source carries the
-- list of tokens and an index; here a call returns the tokens that are left. What a call leaves is not
-- a structural part of its input, so each call costs a unit of fuel.
use aegisiq.Sigma.Run.{Run, done, syntax_error, out_of_fuel, and_run}
use aegisiq.Sigma.Tokens.{
  Token, left_paren, right_paren, kw_and, kw_or, kw_not, kw_true, kw_false, tokenize_condition,
}
use aegisiq.Prelude.{
  ℕ, zero, suc, ◌+◌, ◌*◌, Bool, true, false, not, ◌&&◌, ◌||◌, Option, none, some, List, [], ◌∷◌,
  length,
}

abbrev pub Parsed : Type 0
Parsed = Run (Bool × List Token)

-- the closing bracket of `_parse_atom`
unfoldable pub close : Bool × List Token → Parsed
close (value, right_paren ∷ rest) = done (value, rest)
close _ = syntax_error

unfoldable mutual
  -- `_parse_or`, and its loop
  pub parse_or : ℕ → List Token → Parsed
  parse_or zero ts = out_of_fuel
  parse_or (suc f) ts = and_run (parse_and f ts) λ (value, rest). or_loop f value rest

  pub or_loop : ℕ → Bool → List Token → Parsed
  or_loop zero value ts = out_of_fuel
  or_loop (suc f) value (kw_or ∷ ts) =
      and_run (parse_and f ts) λ (right, rest). or_loop f (value || right) rest
  or_loop (suc f) value ts = done (value, ts)

  -- `_parse_and`, and its loop
  pub parse_and : ℕ → List Token → Parsed
  parse_and zero ts = out_of_fuel
  parse_and (suc f) ts = and_run (parse_not f ts) λ (value, rest). and_loop f value rest

  pub and_loop : ℕ → Bool → List Token → Parsed
  and_loop zero value ts = out_of_fuel
  and_loop (suc f) value (kw_and ∷ ts) =
      and_run (parse_not f ts) λ (right, rest). and_loop f (value && right) rest
  and_loop (suc f) value ts = done (value, ts)

  pub parse_not : ℕ → List Token → Parsed
  parse_not zero ts = out_of_fuel
  parse_not (suc f) (kw_not ∷ ts) = and_run (parse_not f ts) λ (value, rest). done (not value, rest)
  parse_not (suc f) ts = parse_atom f ts

  pub parse_atom : ℕ → List Token → Parsed
  parse_atom zero ts = out_of_fuel
  parse_atom (suc f) (left_paren ∷ ts) = and_run (parse_or f ts) close
  parse_atom (suc f) (kw_true ∷ ts) = done (true, ts)
  parse_atom (suc f) (kw_false ∷ ts) = done (false, ts)
  parse_atom (suc f) _ = syntax_error

-- `i != len(tokens)`
unfoldable pub finish : Bool × List Token → Run Bool
finish (value, []) = done value
finish (value, t ∷ ts) = syntax_error

-- fuel that suffices for the tokens
abbrev pub enough : List Token → ℕ
enough ts = 6 * length ts + 5

unfoldable pub eval_tokens : List Token → Run Bool
unfolding finish
eval_tokens [] = syntax_error
eval_tokens (t ∷ ts) = and_run (parse_or (enough (t ∷ ts)) (t ∷ ts)) finish

unfoldable pub eval_tokenized : Option (List Token) → Run Bool
unfolding eval_tokens
eval_tokenized none = syntax_error
eval_tokenized (some ts) = eval_tokens ts

-- `_eval_boolean_expression`
unfoldable pub eval_boolean_expression : List ℕ → Run Bool
unfolding eval_tokenized
eval_boolean_expression expr = eval_tokenized (tokenize_condition expr)
