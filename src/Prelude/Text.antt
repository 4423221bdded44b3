-- ===== src/Prelude/Text.antt =====
-- Text operations of the source, over the native texts. Letters are ASCII letters.
use Prim.Native.Char.{Char, code}
use Prim.Native.Nat.{ℕ, zero, suc, ◌+◌, ◌-◌, ◌/◌, ◌%◌, ◌≤◌}
use Prim.Native.String.{String, char_at, ◌++◌}
use mathlib.Core.Bool.{Bool, true, false, ◌&&◌, ◌||◌}
use mathlib.Core.List.{List}
use mathlib.Core.Path.{◌≡◌, refl, ap}
use native.Mathlib.Omega.{arith}
use mathlib.Core.Option.{Option, none, some}
use text.Mathlib.Text.{find?, starts_with}
use aegisiq.Prelude.Tests.{leb, ◌==◌, if◌then◌else◌, is_some}

-- The code points of a text.
unfoldable pub codes : String → List ℕ
codes String.[] = List.[]
codes (String.◌∷◌ c s) = List.◌∷◌ (code c) (codes s)

unfoldable pub concat : String → String → String
concat s t = s ++ t

unfoldable pub is_space : ℕ → Bool
is_space n = n == 32 || leb 9 n && leb n 13

lower_char : Char → Char
lower_char c =
    if leb 65 (code c) && leb (code c) 90
    then char_at "abcdefghijklmnopqrstuvwxyz" (code c - 65)
    else c

-- `s.lower()`
unfoldable pub lower : String → String
unfolding lower_char
lower String.[] = ""
lower (String.◌∷◌ c s) = String.◌∷◌ (lower_char c) (lower s)

upper_char : Char → Char
upper_char c =
    if leb 97 (code c) && leb (code c) 122
    then char_at "ABCDEFGHIJKLMNOPQRSTUVWXYZ" (code c - 97)
    else c

-- `s.upper()`
unfoldable pub upper : String → String
unfolding upper_char
upper String.[] = ""
upper (String.◌∷◌ c s) = String.◌∷◌ (upper_char c) (upper s)

-- `s.replace(c, "")` for the character with this code point
unfoldable pub without : ℕ → String → String
without n String.[] = ""
without n (String.◌∷◌ c s) =
    let rest = without n s in if code c == n then rest else String.◌∷◌ c rest

lstrip : String → String
lstrip String.[] = ""
lstrip (String.◌∷◌ c s) = let rest = lstrip s in if is_space (code c) then rest else String.◌∷◌ c s

keep_char : Char → String → String
keep_char c String.[] = if is_space (code c) then "" else String.◌∷◌ c ""
keep_char c (String.◌∷◌ d s) = String.◌∷◌ c (String.◌∷◌ d s)

rstrip : String → String
rstrip String.[] = ""
rstrip (String.◌∷◌ c s) = keep_char c (rstrip s)

-- `s.strip()`
unfoldable pub strip : String → String
unfolding lstrip rstrip keep_char is_space
strip s = rstrip (lstrip s)

-- `needle in hay`
unfoldable pub contains : String → String → Bool
contains needle hay = is_some (find? hay needle)

-- `s.replace("\\", "/")`
unfoldable pub to_slashes : String → String
to_slashes String.[] = ""
to_slashes (String.◌∷◌ c s) = String.◌∷◌ (if code c == 92 then char_at "/" 0 else c) (to_slashes s)

-- `s.startswith(t)`
unfoldable pub has_prefix : String → String → Bool
has_prefix s t = starts_with s t

-- `s.endswith("/")`
unfoldable pub ends_in_slash : String → Bool
ends_in_slash String.[] = false
ends_in_slash (String.◌∷◌ c String.[]) = code c == 47
ends_in_slash (String.◌∷◌ c (String.◌∷◌ d s)) = ends_in_slash (String.◌∷◌ d s)

-- `sep.join(parts)`
unfoldable pub join : String → List String → String
join sep List.[] = ""
join sep (List.◌∷◌ p List.[]) = p
join sep (List.◌∷◌ p (List.◌∷◌ q parts)) = p ++ (sep ++ join sep (List.◌∷◌ q parts))

abbrev tail_of : String → String
tail_of String.[] = ""
tail_of (String.◌∷◌ c s) = s

-- the text up to the first occurrence of a one-character separator: `s.split(sep, 1)[0]`
unfoldable pub before : String → String → String
before sep String.[] = ""
before sep (String.◌∷◌ c s) =
    let rest = before sep s in if starts_with (String.◌∷◌ c s) sep then "" else String.◌∷◌ c rest

-- the text behind the first occurrence of a two-character separator, or the whole text:
-- `s.split(sep, 1)[-1]`
behind : String → String → Option String
behind sep String.[] = none
behind sep (String.◌∷◌ c s) =
    let later = behind sep s in if starts_with (String.◌∷◌ c s) sep then some (tail_of s) else later

unfoldable pub after : String → String → String
unfolding behind
after sep s = elim (behind sep s) [ none ↦ s | some rest ↦ rest ]

cons_piece : Char → List String → List String
cons_piece c List.[] = List.◌∷◌ (String.◌∷◌ c "") List.[]
cons_piece c (List.◌∷◌ p ps) = List.◌∷◌ (String.◌∷◌ c p) ps

-- `s.split(sep)` for a one-character separator
unfoldable pub split : String → String → List String
unfolding cons_piece
split sep String.[] = List.◌∷◌ "" List.[]
split sep (String.◌∷◌ c s) =
    let rest = split sep s in
    if starts_with (String.◌∷◌ c s) sep then List.◌∷◌ "" rest else cons_piece c rest

-- `len(s)`
abbrev pub size : String → ℕ
size String.[] = 0
size (String.◌∷◌ c s) = suc (size s)

-- `s[:n]`
unfoldable pub take_chars : ℕ → String → String
take_chars zero s = ""
take_chars (suc n) String.[] = ""
take_chars (suc n) (String.◌∷◌ c s) = String.◌∷◌ c (take_chars n s)

-- The decimal digits of a number in front of a text. A number has fewer digits than it has units, so
-- fuel of one more than the number is enough.
unfoldable pub digits : ℕ → ℕ → String → String
digits zero n rest = rest
digits (suc fuel) n rest = elim (leb n 9) [
  | true ↦ String.◌∷◌ (char_at "0123456789" n) rest
  | false ↦ digits fuel (n / 10) (String.◌∷◌ (char_at "0123456789" (n % 10)) rest)
]

-- `str(n)`
unfoldable pub decimal : ℕ → String
unfolding digits
decimal n = digits (n + 1) n ""

-- A text that is not longer than the slice is the whole slice.
pub take_chars_short : (n : ℕ) (s : String) → size s ≤ n → take_chars n s ≡ s
unfolding take_chars
take_chars_short zero String.[] h = refl
take_chars_short zero (String.◌∷◌ c s) h = absurd (omega (arith, h))
take_chars_short (suc n) String.[] h = refl
take_chars_short (suc n) (String.◌∷◌ c s) h =
    ap (String.◌∷◌ c) (take_chars_short n s (omega (arith, h)))
