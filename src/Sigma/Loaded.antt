-- ===== src/Sigma/Loaded.antt =====
-- When `load_rules` of backend/app/detection/sigma.py returns, and what it returns.
use aegisiq.Sigma.Loading.{
  raised, skipped, built, load_files, load_documents, load_document, build_rule, read_detection,
  tags_of, add_rule, join_rules, load_rules, build_with,
}
use aegisiq.Sigma.Matching.{SigmaRule}
use aegisiq.Sigma.Values.{Python}
use aegisiq.Models.Json.{Json, null, boolean, number, text, arr, obj, Fields, get}
use aegisiq.Prelude.{
  ℕ, ◌+◌, String, ◌≡◌, refl, Bool, true, false, not, ◌&&◌, ◌||◌, Option, none, some, List, [], ◌∷◌,
  ◌++◌, arith, if◌then◌else◌, is_some, length, length-append, all, count_if, count_if-append,
}

-- a document with a condition that the source supports
unfoldable pub supported : Json → Bool
unfolding read_detection
supported (obj doc) = is_some (read_detection (get "detection" doc))
supported _ = false

-- Its tags can be read.
unfoldable pub readable : Python → Json → Bool
readable py (obj doc) = is_some (tags_of py (get "tags" doc))
readable py _ = true

unfoldable pub harmless : Python → Json → Bool
unfolding supported readable
harmless py doc = not (supported doc) || readable py doc

unfoldable pub documents : Option (List Json) → List Json
documents none = []
documents (some docs) = docs

unfoldable pub all_documents : List (String × Option (List Json)) → List Json
unfolding documents
all_documents [] = []
all_documents (f ∷ files) = documents f.1 ++ all_documents files

unfoldable pub rule_count : Option (List SigmaRule) → ℕ
rule_count none = 0
rule_count (some rules) = length rules

-- what a document adds to the outcome of those behind it
abbrev Adds : Bool → Bool → Option (List SigmaRule) → Option (List SigmaRule) → Type 0
Adds counts fine whole later =
    (is_some whole ≡ (fine && is_some later))
    × (is_some whole ≡ true → rule_count whole ≡ (if counts then 1 else 0) + rule_count later)

add_rule-built :
    (rule : SigmaRule) (later : Option (List SigmaRule))
    → Adds true true (add_rule (built rule) later) later
unfolding add_rule is_some rule_count
add_rule-built rule none = (refl, λ h. absurd (ground (arith, h)))
add_rule-built rule (some rules) = (refl, λ h. omega arith)

add_rule-skipped :
    (fine : Bool) (later : Option (List SigmaRule))
    → fine ≡ true
    → Adds false fine (add_rule skipped later) later
unfolding add_rule
add_rule-skipped fine later h = ground (arith, h)

add_rule-raised : (later : Option (List SigmaRule)) → Adds true false (add_rule raised later) later
unfolding add_rule is_some
add_rule-raised later = (refl, λ h. absurd (ground (arith, h)))

build_lem :
    (py : Python) (source : String) (doc : Fields) (read : Option (Fields × String))
    (tags : Option (List String)) (later : Option (List SigmaRule))
    → Adds
        (is_some read)
        (not (is_some read) || is_some tags)
        (add_rule (build_with py source doc read tags) later)
        later
unfolding build_with is_some
build_lem py source doc none tags later = add_rule-skipped true later refl
build_lem py source doc (some read) none later = add_rule-raised later
build_lem py source doc (some (d, c)) (some tags) later = add_rule-built _ later

document_lem :
    (py : Python) (source : String) (doc : Json) (later : Option (List SigmaRule))
    → Adds (supported doc) (harmless py doc) (add_rule (load_document py source doc) later) later
unfolding load_document harmless supported readable build_rule is_some
document_lem py source (obj doc) later = build_lem py source doc _ _ later
document_lem py source null later = add_rule-skipped true later refl
document_lem py source (boolean b) later = add_rule-skipped true later refl
document_lem py source (number n) later = add_rule-skipped true later refl
document_lem py source (text s) later = add_rule-skipped true later refl
document_lem py source (arr xs) later = add_rule-skipped true later refl

-- The outcome of loading, told by the documents alone.
abbrev Loads : Python → Option (List SigmaRule) → List Json → Type 0
Loads py whole docs =
    (is_some whole ≡ all (harmless py) docs)
    × (is_some whole ≡ true → rule_count whole ≡ count_if supported docs)

documents_lem :
    (py : Python) (source : String) (docs : List Json)
    → Loads py (load_documents py source docs) docs
unfolding load_documents all count_if is_some rule_count
documents_lem py source [] = (refl, λ h. refl)
documents_lem py source (doc ∷ docs) = ground (
  arith,
  document_lem py source doc (load_documents py source docs),
  documents_lem py source docs,
)

all-append : (p : Json → Bool) (xs ys : List Json) → all p (xs ++ ys) ≡ (all p xs && all p ys)
unfolding all
all-append p [] ys = refl
all-append p (x ∷ xs) ys = ground (arith, all-append p xs ys)

join_lem :
    (py : Python) (front back : Option (List SigmaRule)) (xs ys : List Json)
    → Loads py front xs
    → Loads py back ys
    → Loads py (join_rules front back) (xs ++ ys)
unfolding join_rules is_some rule_count
join_lem py none back xs ys h k = ground (arith, h, k, all-append (harmless py) xs ys)
join_lem py (some rules) none xs ys h k = ground (arith, h, k, all-append (harmless py) xs ys)
join_lem py (some rules) (some more) xs ys h k = ground (
  arith,
  h,
  k,
  all-append (harmless py) xs ys,
  length-append rules more,
  count_if-append supported xs ys,
)

files_lem :
    (py : Python) (files : List (String × Option (List Json)))
    → Loads py (load_files py files) (all_documents files)
unfolding load_files all_documents all count_if is_some rule_count documents
files_lem py [] = (refl, λ h. refl)
files_lem py ((source, none) ∷ files) = files_lem py files
files_lem py ((source, some docs) ∷ files) =
    join_lem py _ _ docs (all_documents files) (documents_lem py source docs) (files_lem py files)

-- With YAML installed, loading the files of a directory returns if and only if every document with a
-- supported condition has tags that can be read (a list, a text, a map, or a false value); the files
-- that cannot be parsed do not matter. The rules it then returns are as many as such documents.
pub load_rules_returns :
    (py : Python) (files : List (String × Option (List Json)))
    → (is_some (load_rules py true (some files)) ≡ all (harmless py) (all_documents files))
      × (is_some (load_rules py true (some files)) ≡ true
          → rule_count (load_rules py true (some files)) ≡ count_if supported (all_documents files))
unfolding load_rules
load_rules_returns py files = files_lem py files
