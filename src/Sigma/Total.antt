-- ===== src/Sigma/Total.antt =====
-- The fuel of the condition parser of backend/app/detection/sigma.py always suffices.
use aegisiq.Sigma.Parser.{
  parse_or, parse_and, parse_not, parse_atom, or_loop, and_loop, close, finish, eval_tokens,
  eval_boolean_expression, enough, eval_tokenized,
}
use aegisiq.Sigma.Run.{
  out_of_fuel, Within, ends, stops, Within-out_of_fuel, Within-and_run, Within-weaken,
}
use aegisiq.Sigma.Tokens.{
  Token, left_paren, right_paren, kw_and, kw_or, kw_not, kw_true, kw_false, tokenize_condition,
}
use aegisiq.Prelude.{
  ℕ, zero, suc, ◌+◌, ◌*◌, ◌≤◌, ◌<◌, ◌≢◌, Bool, ◌&&◌, ◌||◌, Option, none, some, List, [], ◌∷◌, arith,
  length,
}

abbrev Shorter : List Token → Bool × List Token → Type 0
Shorter ts r = length r.1 < length ts

abbrev NotLonger : List Token → Bool × List Token → Type 0
NotLonger ts r = length r.1 ≤ length ts

close-Within :
    (n : ℕ) (r : Bool × List Token)
    → length r.1 < n
    → Within (λ (s : Bool × List Token). length s.1 < n) (close r)
unfolding close
close-Within n (value, right_paren ∷ rest) h = ends (omega (arith, h))
close-Within n (value, _) h = stops

mutual
  unfolding parse_or

  parse_or-Within :
      (f : ℕ) (ts : List Token) → 6 * length ts + 4 < f → Within (Shorter ts) (parse_or f ts)
  parse_or-Within zero ts h = absurd (omega arith)
  parse_or-Within (suc f) ts h =
      Within-and_run (parse_and-Within f ts (omega arith)) λ (value, rest) p.
        Within-weaken (or_loop-Within f value rest (omega (arith, p))) λ r q. omega (arith, p, q)

  or_loop-Within :
      (f : ℕ) (value : Bool) (ts : List Token)
      → 6 * length ts + 1 < f
      → Within (NotLonger ts) (or_loop f value ts)
  or_loop-Within zero value ts h = absurd (omega arith)
  or_loop-Within (suc f) value (kw_or ∷ ts) h =
      Within-and_run (parse_and-Within f ts (omega arith)) λ (right, rest) p.
        Within-weaken (or_loop-Within f (value || right) rest (omega (arith, p)))
          λ r q. omega (arith, p, q)
  or_loop-Within (suc f) value _ h = ends (omega arith)

  parse_and-Within :
      (f : ℕ) (ts : List Token) → 6 * length ts + 3 < f → Within (Shorter ts) (parse_and f ts)
  parse_and-Within zero ts h = absurd (omega arith)
  parse_and-Within (suc f) ts h =
      Within-and_run (parse_not-Within f ts (omega arith)) λ (value, rest) p.
        Within-weaken (and_loop-Within f value rest (omega (arith, p))) λ r q. omega (arith, p, q)

  and_loop-Within :
      (f : ℕ) (value : Bool) (ts : List Token)
      → 6 * length ts + 1 < f
      → Within (NotLonger ts) (and_loop f value ts)
  and_loop-Within zero value ts h = absurd (omega arith)
  and_loop-Within (suc f) value (kw_and ∷ ts) h =
      Within-and_run (parse_not-Within f ts (omega arith)) λ (right, rest) p.
        Within-weaken (and_loop-Within f (value && right) rest (omega (arith, p)))
          λ r q. omega (arith, p, q)
  and_loop-Within (suc f) value _ h = ends (omega arith)

  parse_not-Within :
      (f : ℕ) (ts : List Token) → 6 * length ts + 2 < f → Within (Shorter ts) (parse_not f ts)
  parse_not-Within zero ts h = absurd (omega arith)
  parse_not-Within (suc f) (kw_not ∷ ts) h =
      Within-and_run (parse_not-Within f ts (omega arith))
        λ (value, rest) p. ends (omega (arith, p))
  parse_not-Within (suc f) ts h = parse_atom-Within f ts (omega arith)

  parse_atom-Within :
      (f : ℕ) (ts : List Token) → 6 * length ts + 1 < f → Within (Shorter ts) (parse_atom f ts)
  parse_atom-Within zero ts h = absurd (omega arith)
  parse_atom-Within (suc f) (left_paren ∷ ts) h =
      Within-and_run (parse_or-Within f ts (omega arith))
        λ r p. close-Within (suc (length ts)) r (omega (arith, p))
  parse_atom-Within (suc f) (kw_true ∷ ts) h = ends (omega arith)
  parse_atom-Within (suc f) (kw_false ∷ ts) h = ends (omega arith)
  parse_atom-Within (suc f) _ h = stops

eval_tokens-Within : (ts : List Token) → Within (λ (v : Bool). Unit {0}) (eval_tokens ts)
unfolding eval_tokens finish
eval_tokens-Within [] = stops
eval_tokens-Within (t ∷ ts) =
    Within-and_run (parse_or-Within (enough (t ∷ ts)) (t ∷ ts) (omega arith)) ended
  where
    ended :
        (r : Bool × List Token) → Shorter (t ∷ ts) r → Within (λ (v : Bool). Unit {0}) (finish r)
    ended (value, []) p = ends tt
    ended (value, u ∷ us) p = stops

eval_tokenized-Within :
    (o : Option (List Token)) → Within (λ (v : Bool). Unit {0}) (eval_tokenized o)
unfolding eval_tokenized
eval_tokenized-Within none = stops
eval_tokenized-Within (some ts) = eval_tokens-Within ts

-- The evaluation of a condition always ends: whatever the text, the fuel is not used up, and the result
-- is a truth value or the rejection of the text.
pub eval_boolean_expression-total : (expr : List ℕ) → eval_boolean_expression expr ≢ out_of_fuel
unfolding eval_boolean_expression
eval_boolean_expression-total expr =
    Within-out_of_fuel (eval_tokenized-Within (tokenize_condition expr))
