-- ===== src/Ingestion/Dates.antt =====
-- The dates and times that `_parse_windows_datetime` of backend/app/ingestion/normalizer.py reads.
use Prim.Native.Char.{code}
use aegisiq.Ingestion.Regex.{int}
use aegisiq.Models.Log.{seconds}
use aegisiq.Prelude.{
  ℕ, zero, suc, ◌+◌, ◌-◌, ◌*◌, ◌/◌, ◌%◌, String, Bool, not, ◌&&◌, ◌||◌, Option, none, some, List,
  [], ◌∷◌, ltb, leb, ◌==◌, if◌then◌else◌, str_eq, concat, is_space, contains, where_rows,
}

unfoldable pub add_piece : String → List String → List String
add_piece s [] = s ∷ []
add_piece s (p ∷ ps) = concat s p ∷ ps

unfoldable pub pieces : String → List String
unfolding add_piece
pieces String.[] = "" ∷ []
pieces (String.◌∷◌ c s) =
    let rest = pieces s in if is_space (code c) then "" ∷ rest else add_piece (String.◌∷◌ c "") rest

-- `s.split()`
unfoldable pub words : String → List String
unfolding pieces
words s = where_rows (λ p. not (str_eq p "")) (pieces s)

-- the blob with the Arabic marks of the half of the day written as AM and PM
unfoldable pub meridiem : String → String
meridiem String.[] = ""
meridiem (String.◌∷◌ c s) =
    concat (if code c == 1589 then "AM" else if code c == 1605 then "PM" else String.◌∷◌ c "")
      (meridiem s)

-- year, month and day of the three numbers of a date
unfoldable pub order_date : ℕ → ℕ → ℕ → Option (ℕ × (ℕ × ℕ))
order_date a b c =
    if leb 1000 c
    then (if ltb 12 a
        then some (c, (b, a))
        else if ltb 12 b
        then some (c, (a, b))
        else some (c, (b, a)))
    else if leb 1000 a
    then some (a, (b, c))
    else none

unfoldable pub three_numbers : List String → Option (ℕ × (ℕ × ℕ))
three_numbers (x ∷ y ∷ z ∷ []) = elim (int x) [
  | none ↦ none
  | some a ↦ elim (int y) [
    | none ↦ none
    | some b ↦ elim (int z) [ none ↦ none | some c ↦ some (a, (b, c)) ]
  ]
]
three_numbers _ = none

abbrev pub is_leap : ℕ → Bool
is_leap y = y % 4 == 0 && (not (y % 100 == 0) || y % 400 == 0)

unfoldable pub days_in_month : ℕ → ℕ → ℕ
days_in_month y m =
    if m == 2
    then (if is_leap y then 29 else 28)
    else if m == 4 || (m == 6 || (m == 9 || m == 11))
    then 30
    else 31

-- days of the months before a month
unfoldable pub days_before_month : ℕ → ℕ → ℕ
unfolding days_in_month
days_before_month y zero = 0
days_before_month y (suc zero) = 0
days_before_month y (suc (suc m)) = days_before_month y (suc m) + days_in_month y (suc m)

-- `datetime(year, month, day, hour, minute, second, tzinfo=utc)`; none is the `ValueError`. The year 1970
-- begins 719162 days after the year 1; a day before it counts as its first.
unfoldable pub datetime : ℕ → ℕ → ℕ → ℕ → ℕ → ℕ → Option ℕ
unfolding days_in_month days_before_month
datetime year month day hour minute second =
    if leb 1 year
      && (leb year 9999
          && (leb 1 month
              && (leb month 12
                  && (leb 1 day
                      && (leb day (days_in_month year month)
                          && (leb hour 23 && (leb minute 59 && leb second 59)))))))
    then (let y = year - 1 in
        let days =
          365 * y + y / 4 - y / 100 + y / 400 + days_before_month year month + day - 1 - 719162 in
        some (seconds (days * 86400 + hour * 3600 + minute * 60 + second)))
    else none

-- the hour on the clock of 24 hours, given the text of the time in capitals
unfoldable pub full_hour : String → ℕ → ℕ
full_hour up hour =
    if contains "PM" up && ltb hour 12
    then hour + 12
    else if contains "AM" up && hour == 12
    then 0
    else hour
