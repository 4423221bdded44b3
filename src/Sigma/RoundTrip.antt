-- ===== src/Sigma/RoundTrip.antt =====
-- What a formula writes evaluates to its value.
use aegisiq.Sigma.Grammar.{
  Formula, lit, neg, both, either, denote, bracketed, lit_token, emit_or, emit_and, emit_not,
}
use aegisiq.Sigma.Parser.{
  parse_or, parse_and, parse_not, or_loop, and_loop, close, finish, eval_tokens, enough,
}
use mathlib.Core.List.{append_assoc, append-nil}
use aegisiq.Sigma.Run.{done}
use aegisiq.Sigma.Tokens.{Token, right_paren, kw_and, kw_or, kw_not}
use aegisiq.Prelude.{
  ℕ, zero, suc, ◌+◌, ◌*◌, ◌<◌, ◌≡◌, refl, ap, ◌∙◌, Bool, true, false, not, ◌&&◌, ◌||◌, List, [],
  ◌∷◌, ◌++◌, arith, length, length-append,
}

-- What follows an operand of `or`, and of `and`.
abbrev EndsOr : List Token → Type 0
EndsOr (kw_or ∷ ts) = ⊥
EndsOr (kw_and ∷ ts) = ⊥
EndsOr _ = Unit {0}

abbrev EndsAnd : List Token → Type 0
EndsAnd (kw_and ∷ ts) = ⊥
EndsAnd _ = Unit {0}

or_stops :
    (v : Bool) (rest : List Token) (f : ℕ) → EndsOr rest → or_loop (suc f) v rest ≡ done (v, rest)
unfolding parse_or
or_stops v [] f e = refl
or_stops v (kw_or ∷ ts) f e = absurd e
or_stops v (kw_and ∷ ts) f e = absurd e
or_stops v (_ ∷ ts) f e = refl

and_stops :
    (v : Bool) (rest : List Token) (f : ℕ) → EndsAnd rest → and_loop (suc f) v rest ≡ done (v, rest)
unfolding parse_or
and_stops v [] f e = refl
and_stops v (kw_and ∷ ts) f e = absurd e
and_stops v (_ ∷ ts) f e = refl

EndsOr-EndsAnd : (rest : List Token) → EndsOr rest → EndsAnd rest
EndsOr-EndsAnd [] e = tt
EndsOr-EndsAnd (kw_or ∷ ts) e = tt
EndsOr-EndsAnd (kw_and ∷ ts) e = e
EndsOr-EndsAnd (_ ∷ ts) e = tt

or_assoc : (a b c : Bool) → ((a || b) || c) ≡ (a || (b || c))
or_assoc a b c = ground arith

and_assoc : (a b c : Bool) → ((a && b) && c) ≡ (a && (b && c))
and_assoc a b c = ground arith

-- Tokens that are read with one value as an operand of `not`, of `and` and of `or`.
module _ (ts : List Token) (v : Bool) where
  abbrev AsNot : Type 0
  AsNot =
      (rest : List Token) (f : ℕ)
      → 6 * length ts + 2 < f
      → parse_not f (ts ++ rest) ≡ done (v, rest)

  abbrev AsAnd : Type 0
  AsAnd =
      (rest : List Token) (f : ℕ)
      → EndsAnd rest
      → 6 * length ts + 3 < f
      → parse_and f (ts ++ rest) ≡ done (v, rest)

  abbrev AsOr : Type 0
  AsOr =
      (rest : List Token) (f : ℕ)
      → EndsOr rest
      → 6 * length ts + 4 < f
      → parse_or f (ts ++ rest) ≡ done (v, rest)

  abbrev MoreAnd : Type 0
  MoreAnd =
      (u : Bool) (rest : List Token) (f : ℕ)
      → EndsAnd rest
      → 6 * length ts + 4 < f
      → and_loop f u (kw_and ∷ (ts ++ rest)) ≡ done (u && v, rest)

  abbrev MoreOr : Type 0
  MoreOr =
      (u : Bool) (rest : List Token) (f : ℕ)
      → EndsOr rest
      → 6 * length ts + 5 < f
      → or_loop f u (kw_or ∷ (ts ++ rest)) ≡ done (u || v, rest)

  not-AsAnd : AsNot → AsAnd
  unfolding parse_or
  not-AsAnd reads rest (suc (suc f)) e h =
      rw (reads rest (suc f) (omega arith)) (and_stops v rest f e)
  not-AsAnd reads rest _ e h = absurd (omega (arith, h))

  not-MoreAnd : AsNot → MoreAnd
  unfolding parse_or
  not-MoreAnd reads u rest (suc (suc f)) e h =
      rw (reads rest (suc f) (omega arith)) (and_stops (u && v) rest f e)
  not-MoreAnd reads u rest _ e h = absurd (omega (arith, h))

  and-AsOr : AsAnd → AsOr
  unfolding parse_or
  and-AsOr reads rest (suc (suc f)) e h =
      rw (reads rest (suc f) (EndsOr-EndsAnd rest e) (omega arith)) (or_stops v rest f e)
  and-AsOr reads rest _ e h = absurd (omega (arith, h))

  and-MoreOr : AsAnd → MoreOr
  unfolding parse_or
  and-MoreOr reads u rest (suc (suc f)) e h =
      rw (reads rest (suc f) (EndsOr-EndsAnd rest e) (omega arith)) (or_stops (u || v) rest f e)
  and-MoreOr reads u rest _ e h = absurd (omega (arith, h))

-- brackets
or-bracketed : (ts : List Token) (v : Bool) → AsOr ts v → AsNot (bracketed ts) v
unfolding parse_or close
or-bracketed ts v reads rest (suc (suc f)) h =
    let fuel : 6 * length ts + 4 < f = omega (arith, h, length-append ts (right_paren ∷ [])) in
    rw (append_assoc ts (right_paren ∷ []) rest, reads (right_paren ∷ rest) f tt fuel) refl
or-bracketed ts v reads rest _ h = absurd (omega (arith, h, length-append ts (right_paren ∷ [])))

-- `not` before an operand of `not`
neg-AsNot : (ts : List Token) (v : Bool) → AsNot ts v → AsNot (kw_not ∷ ts) (not v)
unfolding parse_or
neg-AsNot ts v reads rest (suc f) h = rw (reads rest f (omega (arith, h))) refl
neg-AsNot ts v reads rest zero h = absurd (omega (arith, h))

lit-AsNot : (b : Bool) → AsNot (lit_token b ∷ []) b
unfolding parse_or
lit-AsNot true rest (suc (suc f)) h = refl
lit-AsNot false rest (suc (suc f)) h = refl
lit-AsNot b rest _ h = absurd (omega (arith, h))

module _ (ts us : List Token) (v w : Bool) where
  both-AsAnd : AsNot ts v → MoreAnd us w → AsAnd (ts ++ kw_and ∷ us) (v && w)
  unfolding parse_or
  both-AsAnd reads more rest (suc f) e h =
      let n = length-append ts (kw_and ∷ us) in
      rw (append_assoc ts (kw_and ∷ us) rest, reads (kw_and ∷ (us ++ rest)) f (omega (arith, h, n)))
        (more v rest f e (omega (arith, h, n)))
  both-AsAnd reads more rest zero e h = absurd (omega (arith, h))

  both-MoreAnd : AsNot ts v → MoreAnd us w → MoreAnd (ts ++ kw_and ∷ us) (v && w)
  unfolding parse_or
  both-MoreAnd reads more u rest (suc f) e h =
      let n = length-append ts (kw_and ∷ us) in
      rw (append_assoc ts (kw_and ∷ us) rest, reads (kw_and ∷ (us ++ rest)) f (omega (arith, h, n)))
        (more (u && v) rest f e (omega (arith, h, n)) ∙ ap (λ b. done (b, rest)) (and_assoc u v w))
  both-MoreAnd reads more u rest zero e h = absurd (omega (arith, h))

  either-AsOr : AsAnd ts v → MoreOr us w → AsOr (ts ++ kw_or ∷ us) (v || w)
  unfolding parse_or
  either-AsOr reads more rest (suc f) e h =
      let n = length-append ts (kw_or ∷ us) in
      rw
        (append_assoc ts (kw_or ∷ us) rest, reads (kw_or ∷ (us ++ rest)) f tt (omega (arith, h, n)))
        (more v rest f e (omega (arith, h, n)))
  either-AsOr reads more rest zero e h = absurd (omega (arith, h))

  either-MoreOr : AsAnd ts v → MoreOr us w → MoreOr (ts ++ kw_or ∷ us) (v || w)
  unfolding parse_or
  either-MoreOr reads more u rest (suc f) e h =
      let n = length-append ts (kw_or ∷ us) in
      rw
        (append_assoc ts (kw_or ∷ us) rest, reads (kw_or ∷ (us ++ rest)) f tt (omega (arith, h, n)))
        (more (u || v) rest f e (omega (arith, h, n)) ∙ ap (λ b. done (b, rest)) (or_assoc u v w))
  either-MoreOr reads more u rest zero e h = absurd (omega (arith, h))

-- How the parser reads a formula in each of the three places.
record Reads (c : Formula) : Type 0 where
  as_or : AsOr (emit_or c) (denote c)
  more_or : MoreOr (emit_or c) (denote c)
  as_and : AsAnd (emit_and c) (denote c)
  more_and : MoreAnd (emit_and c) (denote c)
  as_not : AsNot (emit_not c) (denote c)

-- a formula that is written alike in the three places
same-Reads :
    (ts : List Token) (v : Bool) → AsNot ts v → AsOr ts v × MoreOr ts v × AsAnd ts v × MoreAnd ts v
same-Reads ts v n =
    let a = not-AsAnd ts v n in (and-AsOr ts v a, and-MoreOr ts v a, a, not-MoreAnd ts v n)

formula-Reads : (c : Formula) → Reads c
unfolding emit_or denote
formula-Reads (lit b) =
    let n = lit-AsNot b in
    let (o, os, a, more) = same-Reads (lit_token b ∷ []) b n in
    record { as_or = o; more_or = os; as_and = a; more_and = more; as_not = n }
formula-Reads (neg c) =
    let n = neg-AsNot (emit_not c) (denote c) (formula-Reads c).as_not in
    let (o, os, a, more) = same-Reads (kw_not ∷ emit_not c) (not (denote c)) n in
    record { as_or = o; more_or = os; as_and = a; more_and = more; as_not = n }
formula-Reads (both b c) =
    let reads = (formula-Reads b).as_not in
    let more = (formula-Reads c).more_and in
    let ts = emit_not b ++ kw_and ∷ emit_and c in
    let v = denote b && denote c in
    let a = both-AsAnd (emit_not b) (emit_and c) (denote b) (denote c) reads more in
    let o = and-AsOr ts v a in
    record {
      as_or = o;
      more_or = and-MoreOr ts v a;
      as_and = a;
      more_and = both-MoreAnd (emit_not b) (emit_and c) (denote b) (denote c) reads more;
      as_not = or-bracketed ts v o;
    }
formula-Reads (either b c) =
    let reads = (formula-Reads b).as_and in
    let more = (formula-Reads c).more_or in
    let ts = emit_and b ++ kw_or ∷ emit_or c in
    let v = denote b || denote c in
    let o = either-AsOr (emit_and b) (emit_or c) (denote b) (denote c) reads more in
    let n = or-bracketed ts v o in
    record {
      as_or = o;
      more_or = either-MoreOr (emit_and b) (emit_or c) (denote b) (denote c) reads more;
      as_and = not-AsAnd (bracketed ts) v n;
      more_and = not-MoreAnd (bracketed ts) v n;
      as_not = n;
    }

whole_input :
    (ts : List Token) (v : Bool)
    → parse_or (enough ts) (ts ++ []) ≡ done (v, [])
    → eval_tokens ts ≡ done v
unfolding eval_tokens finish parse_or
whole_input [] v h = absurd (ground (arith, h))
whole_input (t ∷ ts) v h = rw (rw append-nil at h) refl

-- Whatever a formula writes as tokens, with brackets only where they are needed, evaluates to its
-- value: `not` binds closer than `and`, and `and` closer than `or`.
pub eval_tokens-emit_or : (c : Formula) → eval_tokens (emit_or c) ≡ done (denote c)
eval_tokens-emit_or c =
    whole_input (emit_or c) (denote c)
      ((formula-Reads c).as_or [] (enough (emit_or c)) tt (omega arith))
