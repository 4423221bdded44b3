-- ===== src/Analysis/Lines.antt =====
-- `_parse_lines` of backend/app/analysis/engine.py: the lines of an upload and its format. What
-- `splitlines`, `json` and `csv` answer is a parameter. A cell that a short row of a CSV file lacks is none.
use Prim.Native.Char.{code}
use aegisiq.Models.Json.{Json, text, obj, Fields, get, is_true}
use aegisiq.Prelude.{
  ℕ, String, Bool, true, false, not, ◌&&◌, ◌||◌, Option, none, some, List, [], ◌∷◌, map, ◌==◌,
  if◌then◌else◌, str_eq, or_else, concat, lower, strip, contains, has_prefix, join, where_rows,
  first, any,
}

-- A line may be the JSON value that an object of the file keeps as its message.
abbrev pub Row : Type 0
Row = List (String × Option String)

-- `json.loads` answers none, and so does the reader, for the error that the source catches.
pub record Readers : Type 0 where
  pub splitlines : String → List String
  pub loads : String → Option Json
  pub dumps : Json → String
  pub read_csv : String → Option (List String × List Row)

-- `_first_nonempty`
unfoldable pub first_nonempty : List String → String
first_nonempty [] = ""
first_nonempty (line ∷ lines) =
    let later = first_nonempty lines in if str_eq (strip line) "" then later else strip line

unfoldable pub cell : String → Row → Option String
cell column [] = none
cell column ((k, v) ∷ row) = let later = cell column row in if str_eq k column then v else later

abbrev blank_or_bar : ℕ → Bool
blank_or_bar n = n == 32 || n == 124

strip_left : String → String
strip_left String.[] = ""
strip_left (String.◌∷◌ c s) =
    let rest = strip_left s in if blank_or_bar (code c) then rest else String.◌∷◌ c s

strip_right : String → String
strip_right String.[] = ""
strip_right (String.◌∷◌ c s) =
    let rest = strip_right s in
    if str_eq rest "" && blank_or_bar (code c) then "" else String.◌∷◌ c rest

-- `s.strip(" |")`
unfoldable pub strip_bars : String → String
unfolding strip_left strip_right
strip_bars s = strip_right (strip_left s)

abbrev pub preferred : List String
preferred =
    "raw_log" ∷ "message" ∷ "log" ∷ "msg" ∷ "content" ∷ "description" ∷ "details" ∷ "info" ∷ "text"
    ∷ []

abbrev pub id_columns : List String
id_columns =
    "event id" ∷ "eventid" ∷ "id" ∷ "level" ∷ "keywords" ∷ "date and time" ∷ "timecreated"
    ∷ "source" ∷ "task category" ∷ "account" ∷ "account name" ∷ []

-- the first of the preferred columns that the file has, as it is written there
unfoldable pub content_column : List String → List String → Option String
content_column [] names = none
content_column (candidate ∷ candidates) names =
    let later = content_column candidates names in
    elim (first (λ c. str_eq (lower c) candidate) names) [ none ↦ later | some c ↦ some c ]

unfoldable pub named_cells : List String → Row → List String
named_cells [] row = []
named_cells (c ∷ columns) row =
    let rest = named_cells columns row in
    elim (or_else (cell c row) none) [ none ↦ rest | some v ↦ concat c (concat "=" v) ∷ rest ]

abbrev pub text_or_blank : Option String → String
text_or_blank none = ""
text_or_blank (some s) = s

-- the line of a row that has a column of content
unfoldable pub content_line : List String → String → Row → Option Json
unfolding named_cells cell strip_bars
content_line id_cols column row =
    let body = text_or_blank (cell column row) in
    let prefix = join " | " (named_cells id_cols row) in
    let combined =
      if str_eq prefix "" then body else strip_bars (concat prefix (concat " | " body)) in
    if str_eq combined "" then none else some (text combined)

unfoldable pub content_lines : List String → String → List Row → List Json
unfolding content_line
content_lines id_cols column [] = []
content_lines id_cols column (row ∷ rows) =
    let rest = content_lines id_cols column rows in
    elim (content_line id_cols column row) [ none ↦ rest | some line ↦ line ∷ rest ]

-- the cells of a row that have a value
unfoldable pub whole_row : Row → List String
whole_row [] = []
whole_row ((k, v) ∷ row) =
    let rest = whole_row row in
    elim (or_else v none) [ none ↦ rest | some s ↦ concat k (concat "=" s) ∷ rest ]

unfoldable pub whole_rows : List Row → List Json
unfolding whole_row
whole_rows [] = []
whole_rows ([] ∷ rows) = whole_rows rows
whole_rows ((c ∷ row) ∷ rows) = text (join " | " (whole_row (c ∷ row))) ∷ whole_rows rows

abbrev pub csv_or : List Json → List Json × String → List Json × String
csv_or [] other = other
csv_or (line ∷ lines) other = (line ∷ lines, "csv")

-- the values of an object that stand for its message
unfoldable pub first_true : List String → Fields → Option Json
first_true [] fs = none
first_true (key ∷ keys) fs =
    let later = first_true keys fs in
    elim (get key fs) [ none ↦ later | some v ↦ if is_true v then some v else later ]

module _ (r : Readers) where
  -- the line of a text, and whether it is an object
  unfoldable pub json_line : String → Json × Bool
  unfolding first_true
  json_line line = elim (r.loads line) [
    | some (obj fs) ↦ elim (first_true ("raw_log" ∷ "message" ∷ "log" ∷ "msg" ∷ []) fs) [
      | some v ↦ (v, true)
      | none ↦ (text (r.dumps (obj fs)), true)
    ]
    | _ ↦ (text line, false)
  ]

  unfoldable pub json_lines : List String → List Json × Bool
  unfolding json_line
  json_lines [] = ([], false)
  json_lines (line ∷ lines) =
      let (rest, found) = json_lines lines in
      if str_eq (strip line) ""
      then (rest, found)
      else ((json_line (strip line)).0 ∷ rest, (json_line (strip line)).1 || found)

  -- the part for CSV: the lines of the file if it has rows, else what follows
  unfoldable pub csv_part : String → List Json × String → List Json × String
  unfolding content_column content_lines whole_rows
  csv_part s plain = elim (r.read_csv s) [
    | none ↦ plain
    | some (names, rows) ↦
        let id_cols = where_rows (λ c. any (str_eq (lower c)) id_columns) names in
        let whole = csv_or (whole_rows rows) plain in
        elim (content_column preferred names) [
          | none ↦ whole
          | some column ↦ csv_or (content_lines id_cols column rows) whole
        ]
  ]

  -- `_parse_lines`, of the decoded text
  unfoldable pub parse_lines : String → List Json × String
  unfolding first_nonempty json_lines csv_part
  parse_lines s =
      let lines = r.splitlines s in
      let first_line = first_nonempty lines in
      let plain : List Json × String =
        (map text (where_rows (λ line. not (str_eq (strip line) "")) lines), "text") in
      let rest = if contains "," first_line then csv_part s plain else plain in
      if str_eq (strip s) ""
      then ([], "text")
      else if has_prefix first_line "{" && (json_lines lines).1
      then ((json_lines lines).0, "json-lines")
      else rest
