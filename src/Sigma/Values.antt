-- ===== src/Sigma/Values.antt =====
-- The values that Sigma rules compare, of backend/app/detection/sigma.py: `str`, and `_resolve_field`.
-- A parsed document is a JSON value whose keys are texts.
use aegisiq.Models.Json.{
  Json, null, boolean, number, text, arr, obj, Items, nil, cons, Fields, end, field, get, fields_of,
}
use aegisiq.Sigma.Condition.{literal}
use aegisiq.Prelude.{
  String, Bool, Option, none, some, List, [], ◌∷◌, map, if◌then◌else◌, str_eq, lower, strip, before,
}

-- What the source takes from Python's regular expressions and from `repr`: whether a pattern compiles
-- and what it then finds, without regard to case; the text of a list or a dictionary; and the groups of
-- the two patterns for tags.
pub record Python : Type 0 where
  pub compile : String → Option (String → Bool)
  pub repr : Json → String
  pub technique : String → Option String
  pub tactic : String → Option String

unfoldable pub elements : Items → List Json
elements nil = []
elements (cons x xs) = x ∷ elements xs

-- `_FIELD_ALIASES`
abbrev pub field_aliases : List (String × String)
field_aliases =
    ("eventid", "event_id")
    ∷ ("computername", "hostname")
    ∷ ("computer", "hostname")
    ∷ ("hostname", "hostname")
    ∷ ("targetusername", "username")
    ∷ ("subjectusername", "username")
    ∷ ("accountname", "username")
    ∷ ("user", "username")
    ∷ ("username", "username")
    ∷ ("ipaddress", "source_ip")
    ∷ ("sourceip", "source_ip")
    ∷ ("src_ip", "source_ip")
    ∷ ("source_ip", "source_ip")
    ∷ ("destinationip", "destination_ip")
    ∷ ("dest_ip", "destination_ip")
    ∷ []

-- `table.get(key, default)`
unfoldable pub lookup_or : String → String → List (String × String) → String
lookup_or key otherwise [] = otherwise
lookup_or key otherwise ((k, v) ∷ table) =
    let later = lookup_or key otherwise table in if str_eq k key then v else later

-- A value that is missing or None.
unfoldable pub not_none : Option Json → Option Json
not_none (some null) = none
not_none v = v

-- the first key that is the name in small letters
unfoldable pub find_folded : String → Fields → Option Json
find_folded base end = none
find_folded base (field k v fs) =
    let later = find_folded base fs in if str_eq (lower k) base then some v else later

-- `field.split("|")[0].strip().lower()`
unfoldable pub base_name : String → String
base_name spec = lower (strip (before "|" spec))

-- the lookup in `normalized_data`
unfoldable pub find_in_data : String → Fields → Option Json
unfolding not_none find_folded
find_in_data base extra = elim (not_none (get base extra)) [
  | some v ↦ some v
  | none ↦ not_none (find_folded base extra)
]

unfoldable pub find_value : String → Fields → Option Json
unfolding find_in_data base_name lookup_or
find_value spec event =
    elim (not_none (get (lookup_or (base_name spec) (base_name spec) field_aliases) event)) [
      | some v ↦ some v
      | none ↦
          find_in_data (base_name spec)
            (elim (get "normalized_data" event) [ some extra ↦ fields_of extra | none ↦ end ])
    ]

module _ (py : Python) where
  -- `str(value)`
  unfoldable pub str : Json → String
  str null = "None"
  str (boolean b) = if b then "True" else "False"
  str (number literal) = literal
  str (text s) = s
  str (arr xs) = py.repr (arr xs)
  str (obj fs) = py.repr (obj fs)

  unfoldable pub values_of : Option Json → List String
  unfolding str elements
  values_of none = []
  values_of (some (arr xs)) = map str (elements xs)
  values_of (some v) = str v ∷ []

  -- `_resolve_field`
  unfoldable pub resolve_field : String → Fields → List String
  unfolding find_value values_of
  resolve_field spec event = values_of (find_value spec event)
