-- ===== src/Models/Json.antt =====
-- The JSON columns (`normalized_data`, `parameters`), as Python's values: a number is kept as its
-- literal, since no rule computes with it.
use Prim.Native.Char.{code}
use aegisiq.Prelude.{
  String, Bool, true, false, not, ◌&&◌, ◌||◌, Option, none, some, ◌==◌, if◌then◌else◌, str_eq,
}

mutual
  pub data Json : Type 0 where
    null : Json
    boolean : Bool → Json
    number : String → Json
    text : String → Json
    arr : Items → Json
    obj : Fields → Json

  pub data Items : Type 0 where
    nil : Items
    cons : Json → Items → Items

  pub data Fields : Type 0 where
    end : Fields
    field : String → Json → Fields → Fields

-- `data.get(key)` on a dict
unfoldable pub get : String → Fields → Option Json
get k end = none
get k (field j v fs) = if str_eq j k then some v else get k fs

-- a column's dict; every other value reads as the empty dict
unfoldable pub fields_of : Json → Fields
fields_of (obj fs) = fs
fields_of _ = end

-- `isinstance(value, str)`
unfoldable pub text_of : Option Json → Option String
text_of (some (text s)) = some s
text_of _ = none

-- `isinstance(value, list)`
unfoldable pub items_of : Option Json → Items
items_of (some (arr xs)) = xs
items_of _ = nil

-- the numeral of a number that is zero
unfoldable pub is_zero : String → Bool
is_zero String.[] = true
is_zero (String.◌∷◌ c s) = (code c == 48 || (code c == 46 || code c == 45)) && is_zero s

-- what Python counts as true
unfoldable pub is_true : Json → Bool
unfolding is_zero
is_true null = false
is_true (boolean b) = b
is_true (number numeral) = not (is_zero numeral)
is_true (text s) = not (str_eq s "")
is_true (arr nil) = false
is_true (arr (cons x xs)) = true
is_true (obj end) = false
is_true (obj (field k v fs)) = true
