-- ===== src/Sigma/Loading.antt =====
-- Building the rules from parsed documents: `_build_rule`, the two readings of tags, and `load_rules` of
-- backend/app/detection/sigma.py. Files are what the YAML parser made of them, in order.
use aegisiq.Sigma.Values.{Python, elements, str}
use aegisiq.Sigma.Matching.{SigmaRule}
use aegisiq.Models.Json.{
  Json, null, boolean, number, text, arr, obj, Fields, end, field, get, is_zero,
}
use aegisiq.Models.Log.{Severity}
use Prim.Native.Char.{code}
use aegisiq.Prelude.{
  ℕ, String, Bool, false, ◌&&◌, ◌||◌, Option, none, some, List, [], ◌∷◌, ◌++◌, map, leb, ◌==◌,
  if◌then◌else◌, str_eq, concat, lower, upper, strip, contains, has_prefix,
}

-- `_LEVEL_TO_SEVERITY.get(level, "medium")`
unfoldable pub severity_of : String → Severity
severity_of level =
    if str_eq level "informational"
    then Severity.low
    else if str_eq level "low"
    then Severity.low
    else if str_eq level "medium"
    then Severity.medium
    else if str_eq level "high"
    then Severity.high
    else if str_eq level "critical"
    then Severity.critical
    else Severity.medium

-- the first tag that a pattern reads
unfoldable pub first_reading : (String → Option String) → List String → Option String
first_reading read [] = none
first_reading read (t ∷ ts) =
    let later = first_reading read ts in elim (read t) [ some found ↦ some found | none ↦ later ]

-- `_mitre_from_tags`
unfoldable pub mitre_from_tags : Python → List String → Option String
unfolding first_reading
mitre_from_tags py tags = elim (first_reading py.technique tags) [
  | some found ↦ some (upper found)
  | none ↦ none
]

-- a tactic's name, unless it begins with "t"
unfoldable pub tactic_name : Option String → Option String
tactic_name none = none
tactic_name (some name) = if has_prefix name "t" then none else some name

abbrev pub is_letter : ℕ → Bool
is_letter n = leb 97 n && leb n 122 || leb 65 n && leb n 90

-- `s.replace("_", " ").title()`, given whether a letter stands before the text
unfoldable pub title_words : Bool → String → String
title_words inside String.[] = ""
title_words inside (String.◌∷◌ c s) =
    if code c == 95
    then concat " " (title_words false s)
    else concat (if inside then lower (String.◌∷◌ c "") else upper (String.◌∷◌ c ""))
        (title_words (is_letter (code c)) s)

-- `_killchain_from_tags`
unfoldable pub killchain_from_tags : Python → List String → Option String
unfolding first_reading tactic_name title_words
killchain_from_tags py tags = elim (first_reading (λ t. tactic_name (py.tactic t)) tags) [
  | some name ↦ some (title_words false name)
  | none ↦ none
]

unfoldable pub characters : String → List String
characters String.[] = []
characters (String.◌∷◌ c s) = String.◌∷◌ c "" ∷ characters s

unfoldable pub keys : Fields → List String
keys end = []
keys (field k v fs) = k ∷ keys fs

-- `[str(t) for t in (doc.get("tags") or [])]`: none where the value is true and has no elements
unfoldable pub tags_of : Python → Option Json → Option (List String)
unfolding str elements is_zero characters keys
tags_of py none = some []
tags_of py (some null) = some []
tags_of py (some (boolean b)) = if b then none else some []
tags_of py (some (number numeral)) = if is_zero numeral then some [] else none
tags_of py (some (text s)) = some (characters s)
tags_of py (some (arr xs)) = some (map (str py) (elements xs))
tags_of py (some (obj fs)) = some (keys fs)

unfoldable pub without_key : String → Fields → Fields
without_key k end = end
without_key k (field j v fs) = if str_eq j k then without_key k fs else field j v (without_key k fs)

-- `str(doc.get(key, default))`
unfoldable pub text_or : Python → String → String → Fields → String
unfolding str
text_or py key otherwise doc = elim (get key doc) [ none ↦ otherwise | some v ↦ str py v ]

-- aggregations and correlations, which the source does not implement
unfoldable pub aggregates : String → Bool
aggregates condition = contains "|" condition || contains " by " (lower condition)

-- What `_build_rule` does with a document: it raises, returns None, or returns a rule.
pub data Build : Type 0 where
  raised skipped : Build
  built : SigmaRule → Build

-- the rule of a document with a supported condition
unfoldable pub new_rule : Python → Fields → String → Fields → String → List String → SigmaRule
unfolding text_or severity_of mitre_from_tags killchain_from_tags without_key
new_rule py doc source detection condition tags = record {
  title = text_or py "title" "Untitled Sigma rule" doc;
  level = lower (text_or py "level" "medium" doc);
  severity = severity_of (lower (text_or py "level" "medium" doc));
  description = strip (text_or py "description" "" doc);
  mitre = mitre_from_tags py tags;
  kill_chain = killchain_from_tags py tags;
  detection = without_key "condition" detection;
  condition = condition;
  rule_id = get "id" doc;
  tags = tags;
  source_file = some source;
}

-- the detection and the condition of a document that the guards let through
unfoldable pub read_detection : Option Json → Option (Fields × String)
unfolding aggregates
read_detection (some (obj detection)) = elim (get "condition" detection) [
  | some (text condition) ↦ if aggregates condition then none else some (detection, condition)
  | _ ↦ none
]
read_detection _ = none

-- what becomes of a document, given its detection and condition and its tags
unfoldable pub build_with :
    Python → String → Fields → Option (Fields × String) → Option (List String) → Build
unfolding new_rule
build_with py source doc none tags = skipped
build_with py source doc (some read) none = raised
build_with py source doc (some (detection, condition)) (some tags) =
    built (new_rule py doc source detection condition tags)

-- `_build_rule`
unfoldable pub build_rule : Python → String → Fields → Build
unfolding tags_of read_detection build_with
build_rule py source doc =
    build_with py source doc (read_detection (get "detection" doc)) (tags_of py (get "tags" doc))

-- one turn of the inner loop of `load_rules`
unfoldable pub load_document : Python → String → Json → Build
unfolding build_rule
load_document py source (obj doc) = build_rule py source doc
load_document py source _ = skipped

-- the effect of a document on the rules of those behind it; none where the source raises
unfoldable pub add_rule : Build → Option (List SigmaRule) → Option (List SigmaRule)
add_rule raised later = none
add_rule skipped later = later
add_rule (built rule) none = none
add_rule (built rule) (some rules) = some (rule ∷ rules)

unfoldable pub load_documents : Python → String → List Json → Option (List SigmaRule)
unfolding load_document add_rule
load_documents py source [] = some []
load_documents py source (doc ∷ docs) =
    add_rule (load_document py source doc) (load_documents py source docs)

-- rules of one file in front of those of the files behind it
unfoldable pub join_rules :
    Option (List SigmaRule) → Option (List SigmaRule) → Option (List SigmaRule)
join_rules none later = none
join_rules (some rules) none = none
join_rules (some rules) (some more) = some (rules ++ more)

-- the loop over the files: none for a file that cannot be read or parsed
unfoldable pub load_files : Python → List (String × Option (List Json)) → Option (List SigmaRule)
unfolding load_documents join_rules
load_files py [] = some []
load_files py ((source, none) ∷ files) = load_files py files
load_files py ((source, some docs) ∷ files) =
    join_rules (load_documents py source docs) (load_files py files)

-- `load_rules`, given whether YAML is installed and the files of the directory if it exists
unfoldable pub load_rules :
    Python → Bool → Option (List (String × Option (List Json))) → Option (List SigmaRule)
unfolding load_files
load_rules py yaml_ok none = some []
load_rules py yaml_ok (some files) = if yaml_ok then load_files py files else some []
