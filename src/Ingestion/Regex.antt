-- ===== src/Ingestion/Regex.antt =====
-- What backend/app/ingestion/normalizer.py takes from Python: `re`, `int`, and the texts of values.
use Prim.Native.Char.{code}
use aegisiq.Models.Json.{Fields, end, field, Json}
use aegisiq.Prelude.{
  ℕ, ◌+◌, ◌-◌, ◌*◌, String, Bool, ◌&&◌, Option, none, some, List, [], ◌∷◌, leb, if◌then◌else◌,
  str_eq, first,
}

-- `re.search`: the groups of a match, by name or number, each there if it took part; `re.findall` for a
-- pattern with one group. The last is a search that ignores case.
pub record Regex : Type 0 where
  pub search : String → String → Option (String → Option String)
  pub findall : String → String → List String
  pub search_ignoring_case : String → String → Option (String → Option String)

-- a group of a match, empty if it took no part
abbrev pub group : String → (String → Option String) → String
group name m = elim (m name) [ none ↦ "" | some s ↦ s ]

abbrev pub is_digit : ℕ → Bool
is_digit n = leb 48 n && leb n 57

unfoldable pub number_from : ℕ → String → Option ℕ
number_from n String.[] = some n
number_from n (String.◌∷◌ c s) =
    let later = number_from (n * 10 + (code c - 48)) s in if is_digit (code c) then later else none

-- `int(s)` for a text of digits; none is the `ValueError`
unfoldable pub int : String → Option ℕ
unfolding number_from
int String.[] = none
int (String.◌∷◌ c s) = number_from 0 (String.◌∷◌ c s)

-- `values[-1]`
unfoldable pub last : List String → Option String
last [] = none
last (x ∷ []) = some x
last (x ∷ y ∷ xs) = last (y ∷ xs)

-- `d[key] = value`
unfoldable pub put : String → Json → Fields → Fields
put k v end = field k v end
put k v (field j w fs) = if str_eq j k then field j v fs else field j w (put k v fs)

-- `{**first, **second}`
unfoldable pub merge : Fields → Fields → Fields
unfolding put
merge first end = first
merge first (field k v fs) = merge (put k v first) fs

-- the dict without a key
unfoldable pub remove : String → Fields → Fields
remove k end = end
remove k (field j v fs) = if str_eq j k then remove k fs else field j v (remove k fs)
