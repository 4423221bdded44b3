-- ===== src/Sigma/Grammar.antt =====
-- The boolean formulas that conditions write, their value and their tokens: the reference for the
-- parser of backend/app/detection/sigma.py.
use aegisiq.Sigma.Tokens.{Token, left_paren, right_paren, kw_and, kw_or, kw_not, kw_true, kw_false}
use aegisiq.Prelude.{Bool, true, false, not, ◌&&◌, ◌||◌, List, [], ◌∷◌, ◌++◌}

pub data Formula : Type 0 where
  lit : Bool → Formula
  neg : Formula → Formula
  both either : Formula → Formula → Formula

unfoldable pub denote : Formula → Bool
denote (lit b) = b
denote (neg a) = not (denote a)
denote (both a b) = denote a && denote b
denote (either a b) = denote a || denote b

abbrev pub bracketed : List Token → List Token
bracketed ts = left_paren ∷ (ts ++ right_paren ∷ [])

abbrev pub lit_token : Bool → Token
lit_token true = kw_true
lit_token false = kw_false

-- The tokens of a formula with the brackets that it needs: as an operand of `or`, of `and`, of `not`.
unfoldable mutual
  pub emit_or : Formula → List Token
  emit_or (lit b) = lit_token b ∷ []
  emit_or (neg a) = kw_not ∷ emit_not a
  emit_or (both a b) = emit_not a ++ kw_and ∷ emit_and b
  emit_or (either a b) = emit_and a ++ kw_or ∷ emit_or b

  pub emit_and : Formula → List Token
  emit_and (lit b) = lit_token b ∷ []
  emit_and (neg a) = kw_not ∷ emit_not a
  emit_and (both a b) = emit_not a ++ kw_and ∷ emit_and b
  emit_and (either a b) = bracketed (emit_and a ++ kw_or ∷ emit_or b)

  pub emit_not : Formula → List Token
  emit_not (lit b) = lit_token b ∷ []
  emit_not (neg a) = kw_not ∷ emit_not a
  emit_not (both a b) = bracketed (emit_not a ++ kw_and ∷ emit_and b)
  emit_not (either a b) = bracketed (emit_and a ++ kw_or ∷ emit_or b)
