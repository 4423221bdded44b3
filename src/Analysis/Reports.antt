-- ===== src/Analysis/Reports.antt =====
-- backend/app/api/routes/analysis.py: the table of reports, newest last. `analyze` and what the database
-- raises, the licence and the drawn id are parameters; an answer is a status with what it carries. Audit rows are left out.
use aegisiq.Analysis.Analyze.{Environment, analyze}
use aegisiq.Analysis.Built.{Built, build_summary}
use aegisiq.Models.Alert.{DetectionRule}
use aegisiq.Models.User.{User, administrator, security_analyst}
use aegisiq.Prelude.{
  ℕ, ◌+◌, ◌*◌, max, String, Bool, true, false, not, ◌&&◌, Option, none, some, List, [], ◌∷◌, ◌++◌,
  ltb, leb, ◌==◌, if◌then◌else◌, str_eq, take_chars, length, take, drop, where_rows, first, any,
}

pub data AnalysisStatus : Type 0 where
  pending running complete failed : AnalysisStatus

pub record Report : Type 0 where
  pub id : ℕ
  pub created_at : ℕ
  pub finished_at : Option ℕ
  pub filename : String
  pub total_bytes : ℕ
  pub status : AnalysisStatus
  pub summary : Option Built
  pub error : Option String
  pub uploaded_by : Option ℕ
  pub license_tier : Option String

-- An answer, or the status of an `HTTPException`.
pub data Answer (A : Type 0) : Type 0 where
  answered : A → Answer A
  status_code : ℕ → Answer A

-- The loop that reads the upload in chunks, with the bytes read so far: none above the limit.
unfoldable pub read_chunks : ℕ → ℕ → List (List ℕ) → Option (List ℕ)
read_chunks ceiling total [] = some []
read_chunks ceiling total ([] ∷ chunks) = some []
read_chunks ceiling total ((b ∷ bs) ∷ chunks) =
    let total' = total + length (b ∷ bs) in
    elim (ltb ceiling total') [
      | true ↦ none
      | false ↦ elim (read_chunks ceiling total' chunks) [
        | none ↦ none
        | some rest ↦ some ((b ∷ bs) ++ rest)
      ]
    ]

abbrev pub upload_limit : ℕ → ℕ
upload_limit max_upload_mb = max 1 max_upload_mb * 1024 * 1024

abbrev pub is_administrator : User → Bool
is_administrator user = elim user.role [ administrator ↦ true | security_analyst ↦ false ]

abbrev pub owned_by : User → Report → Bool
owned_by user r = elim r.uploaded_by [ none ↦ false | some n ↦ n == user.id ]

-- What a request has of its surroundings: the tier of a licence with the feature, the setting, the drawn id,
-- and the instants of its start and its end.
pub record Request : Type 0 where
  pub license : Option String
  pub max_upload_mb : ℕ
  pub new_id : ℕ
  pub started : ℕ
  pub finished : ℕ

module _ (env : Environment) (rules : List DetectionRule) where
  -- the row behind the `try`; an exception is its text
  unfoldable pub finish : Request → List ℕ → Option String → Report → Report
  unfolding analyze build_summary
  finish q raw none row = record row {
    summary = some (build_summary (analyze env raw rules));
    status = complete;
    finished_at = some q.finished;
  }
  finish q raw (some message) row = record row {
    status = failed;
    error = some (take_chars 500 message);
    finished_at = some q.finished;
  }

  abbrev pub new_report : Request → User → String → List ℕ → String → Report
  new_report q user tier raw filename = record {
    id = q.new_id;
    created_at = q.started;
    finished_at = none;
    filename = if str_eq filename "" then "unnamed.log" else filename;
    total_bytes = length raw;
    status = running;
    summary = none;
    error = none;
    uploaded_by = some user.id;
    license_tier = some tier;
  }

  -- the part behind the checks
  unfoldable pub run_upload :
      Request
      → User
      → String
      → List ℕ
      → String
      → Option String
      → List Report
      → Answer Report × List Report
  unfolding finish
  run_upload q user tier raw filename raised reports =
      let row = finish q raw raised (new_report q user tier raw filename) in
      (elim raised [ none ↦ answered row | some message ↦ status_code 500 ], reports ++ (row ∷ []))

  -- `upload_and_analyze`
  unfoldable pub upload_and_analyze :
      Request
      → User
      → List (List ℕ)
      → String
      → Option String
      → List Report
      → Answer Report × List Report
  unfolding read_chunks run_upload
  upload_and_analyze q user chunks filename raised reports = elim q.license [
    | none ↦ (status_code 402, reports)
    | some tier ↦ elim (read_chunks (upload_limit q.max_upload_mb) 0 chunks) [
      | none ↦ (status_code 413, reports)
      | some [] ↦ (status_code 400, reports)
      | some (b ∷ bs) ↦ run_upload q user tier (b ∷ bs) filename raised reports
    ]
  ]

unfoldable pub insert_newest : Report → List Report → List Report
insert_newest r [] = r ∷ []
insert_newest r (s ∷ reports) =
    let later = insert_newest r reports in
    if ltb r.created_at s.created_at then s ∷ later else r ∷ s ∷ reports

unfoldable pub newest_first : List Report → List Report
unfolding insert_newest
newest_first [] = []
newest_first (r ∷ reports) = insert_newest r (newest_first reports)

-- `list_reports`: the total and the page
unfoldable pub list_reports : Request → User → ℕ → ℕ → List Report → Answer (ℕ × List Report)
unfolding newest_first
list_reports q user limit offset reports =
    let mine = if is_administrator user then reports else where_rows (owned_by user) reports in
    elim q.license [
      | none ↦ status_code 402
      | some tier ↦
          if leb 1 limit && leb limit 200
          then answered (length mine, take limit (drop offset (newest_first mine)))
          else status_code 422
    ]

-- `_load`
unfoldable pub load : ℕ → User → List Report → Answer Report
load report_id user reports = elim (first (λ r. r.id == report_id) reports) [
  | none ↦ status_code 404
  | some r ↦
      if not (is_administrator user) && not (owned_by user r) then status_code 403 else answered r
]

unfoldable pub get_report : Request → ℕ → User → List Report → Answer Report
unfolding load
get_report q report_id user reports = elim q.license [
  | none ↦ status_code 402
  | some tier ↦ load report_id user reports
]

-- `delete_report`, of the first row with the id
unfoldable pub remove_report : ℕ → List Report → List Report
remove_report report_id [] = []
remove_report report_id (r ∷ reports) =
    let rest = remove_report report_id reports in if r.id == report_id then reports else r ∷ rest

unfoldable pub delete_report : Request → ℕ → User → List Report → Answer Unit × List Report
unfolding remove_report
delete_report q report_id user reports =
    if not (is_administrator user) then (status_code 403, reports) else elim q.license [
      | none ↦ (status_code 402, reports)
      | some tier ↦
          if any (λ r. r.id == report_id) reports
          then (answered tt, remove_report report_id reports)
          else (status_code 404, reports)
    ]
