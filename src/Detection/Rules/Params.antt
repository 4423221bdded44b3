-- ===== src/Detection/Rules/Params.antt =====
-- Reading of a log's `normalized_data` and of a rule's `parameters`, as the rules do it.
use aegisiq.Models.Json.{Items, nil, cons, Fields, get, text_of, fields_of}
use aegisiq.Prelude.{
  String, Option, none, some, List, [], ◌∷◌, if◌then◌else◌, str_eq, or_else, strip,
}

-- the first of the keys with a text that is not blank, stripped
unfoldable pub first_text : List String → Fields → Option String
first_text [] fs = none
first_text (key ∷ keys) fs =
    let later = first_text keys fs in
    elim (text_of (get key fs)) [
      | none ↦ later
      | some value ↦ if str_eq (strip value) "" then later else some (strip value)
    ]

-- `[p for p in configured if isinstance(p, str) and p.strip()]`
unfoldable pub nonblank_texts : Items → List String
nonblank_texts nil = []
nonblank_texts (cons x xs) =
    let rest = nonblank_texts xs in
    elim (text_of (some x)) [
      | none ↦ rest
      | some p ↦ if str_eq (strip p) "" then rest else p ∷ rest
    ]

-- the configured texts if there are any, else the default
unfoldable pub nonblank_or : Items → List String → List String
nonblank_or xs default = elim (nonblank_texts xs) [ [] ↦ default | p ∷ ps ↦ p ∷ ps ]

-- `[(p.get(a), p.get(b)) for p in configured if isinstance(p, dict) and p.get(a) and p.get(b)]`
unfoldable pub named_pairs : String → String → Items → List (String × String)
named_pairs a b nil = []
named_pairs a b (cons x xs) =
    let rest = named_pairs a b xs in
    elim (or_else (text_of (get a (fields_of x))) none) [
      | none ↦ rest
      | some name ↦ elim (or_else (text_of (get b (fields_of x))) none) [
        | none ↦ rest
        | some value ↦ (name, value) ∷ rest
      ]
    ]

unfoldable pub pairs_or : List (String × String) → List (String × String) → List (String × String)
pairs_or [] default = default
pairs_or (p ∷ ps) default = p ∷ ps
