-- ===== src/Analysis/Shown.antt =====
-- Who is shown which report of backend/app/api/routes/analysis.py.
use aegisiq.Analysis.Analyze.{Environment}
use aegisiq.Analysis.Reports.{
  Report, Request, Answer, answered, status_code, run_upload, finish, upload_and_analyze,
  newest_first, insert_newest, list_reports, load, get_report, owned_by, is_administrator,
}
use aegisiq.Models.Alert.{DetectionRule}
use aegisiq.Models.User.{User}
use mathlib.Core.Path.{subst}
use aegisiq.Prelude.{
  ℕ, zero, suc, ◌≤◌, String, ◌≡◌, refl, sym, ap, ◌∙◌, inl, inr, Bool, true, false, not, ◌&&◌,
  Option, none, some, List, [], ◌∷◌, ◌++◌, arith, ltb, leb, ◌==◌, if◌then◌else◌, Bool-cases, ==_iff,
  length, take, drop, length-take-le, where_rows, first, any, count_if, All, length-where_rows,
  All-where_rows,
}

All-insert_newest :
    (P : Report → Type 0) (r : Report) (reports : List Report)
    → P r
    → All P reports
    → All P (insert_newest r reports)
unfolding insert_newest
All-insert_newest P r [] h hs = (h, tt)
All-insert_newest P r (s ∷ reports) h hs = elim (Bool-cases (ltb r.created_at s.created_at)) [
  | inl e ↦ rw (e, if◌then◌else◌) (hs.0, All-insert_newest P r reports h hs.1)
  | inr e ↦ rw (e, if◌then◌else◌) (h, hs)
]

All-newest_first :
    (P : Report → Type 0) (reports : List Report) → All P reports → All P (newest_first reports)
unfolding newest_first
All-newest_first P [] h = tt
All-newest_first P (r ∷ reports) h =
    All-insert_newest P r (newest_first reports) h.0 (All-newest_first P reports h.1)

All-take : {A : Type 0} → (P : A → Type 0) (n : ℕ) (xs : List A) → All P xs → All P (take n xs)
All-take P zero xs h = tt
All-take P (suc n) [] h = tt
All-take P (suc n) (x ∷ xs) h = (h.0, All-take P n xs h.1)

All-drop : {A : Type 0} → (P : A → Type 0) (n : ℕ) (xs : List A) → All P xs → All P (drop n xs)
All-drop P zero xs h = h
All-drop P (suc n) [] h = tt
All-drop P (suc n) (x ∷ xs) h = All-drop P n xs h.1

answered_page :
    (license : Option String) (in_range : Bool) (t total : ℕ) (p page : List Report)
    → elim license as (λ _. Answer (ℕ × List Report)) [
      | none ↦ status_code 402
      | some tier ↦ if in_range then answered (t, p) else status_code 422
    ]
      ≡ answered (total, page)
    → (in_range ≡ true) × ((t ≡ total) × (p ≡ page))
answered_page none in_range t total p page h = absurd (ground (arith, h))
answered_page (some tier) false t total p page h = absurd (ground (arith, h))
answered_page (some tier) true t total p page h =
    let same : (t, p) ≡ (total, page) =
      ap (λ a. elim a [ answered x ↦ x | status_code n ↦ (t, p) ]) h in
    (refl, (ap (λ x. x.0) same, ap (λ x. x.1) same))

-- The list shows an analyst no report but the own ones, two hundred at most, and counts them all.
pub list_reports-own :
    (q : Request) (user : User) (limit offset total : ℕ) (page reports : List Report)
    → is_administrator user ≡ false
    → list_reports q user limit offset reports ≡ answered (total, page)
    → All (λ r. owned_by user r ≡ true) page
      × (total ≡ count_if (owned_by user) reports)
      × (length page ≤ 200)
unfolding list_reports
list_reports-own q user limit offset total page reports analyst h =
    let mine = if is_administrator user then reports else where_rows (owned_by user) reports in
    let own : mine ≡ where_rows (owned_by user) reports =
      ap (λ b. if b then reports else where_rows (owned_by user) reports) analyst in
    let (in_range, (same_total, same_page)) =
      answered_page q.license (leb 1 limit && leb limit 200) (length mine) total
        (take limit (drop offset (newest_first mine))) page h in
    let all_own : All (λ r. owned_by user r ≡ true) mine =
      subst (All (λ r. owned_by user r ≡ true)) (sym own)
        (All-where_rows (owned_by user) reports) in
    let shown =
      All-take (λ r. owned_by user r ≡ true) limit (drop offset (newest_first mine))
        (All-drop (λ r. owned_by user r ≡ true) offset (newest_first mine)
          (All-newest_first (λ r. owned_by user r ≡ true) mine all_own)) in
    let short = length-take-le limit (drop offset (newest_first mine)) in
    (
      subst (All (λ r. owned_by user r ≡ true)) same_page shown,
      sym same_total ∙ (ap length own ∙ length-where_rows (owned_by user) reports),
      subst (λ p. length p ≤ 200) same_page (ground (arith, short, in_range)),
    )

first-new :
    {A : Type 0}
    → (p : A → Bool) (xs : List A) (x : A) → any p xs ≡ false
    → p x ≡ true
    → first p (xs ++ (x ∷ [])) ≡ some x
unfolding first any
first-new p [] x none_before h = rw (h, if◌then◌else◌) refl
first-new p (y ∷ ys) x none_before h =
    ground (arith, none_before, first-new p ys x (ground (arith, none_before)) h)

own_shown :
    (administrator own : Bool) (r : Report)
    → own ≡ true
    → (if not administrator && not own then status_code 403 else answered r) ≡ answered r
own_shown true own r h = refl
own_shown false own r h = rw (h) refl

load-owned :
    (report_id : ℕ) (user : User) (reports : List Report) (r : Report)
    → first (λ s. s.id == report_id) reports ≡ some r
    → owned_by user r ≡ true
    → load report_id user reports ≡ answered r
unfolding load
load-owned report_id user reports r found own =
    ap
      (λ o. elim o as (λ _. Answer Report) [
        | none ↦ status_code 404
        | some s ↦
            if not (is_administrator user) && not (owned_by user s)
            then status_code 403
            else answered s
      ])
      found
    ∙ own_shown (is_administrator user) (owned_by user r) r own

module _ (env : Environment) (rules : List DetectionRule) where
  -- what an upload that answers a report has done
  Uploaded : Request → User → Report → List Report → List Report → Type 0
  Uploaded q user r reports reports' =
      (r.id ≡ q.new_id) × ((owned_by user r ≡ true) × (reports' ≡ reports ++ (r ∷ [])))

  run_upload-Uploaded :
      (q : Request) (user : User) (tier : String) (raw : List ℕ) (filename : String)
      (raised : Option String) (reports reports' : List Report) (r : Report)
      → run_upload env rules q user tier raw filename raised reports ≡ (answered r, reports')
      → Uploaded q user r reports reports'
  unfolding run_upload finish Uploaded
  run_upload-Uploaded q user tier raw filename (some message) reports reports' r h =
      absurd (ground (arith, ap (λ x. x.0) h))
  run_upload-Uploaded q user tier raw filename none reports reports' r h =
      let same = ap (λ x. elim x.0 [ answered s ↦ s | status_code n ↦ r ]) h in
      (
        sym (ap (λ s. s.id) same),
        (
          sym (ap (owned_by user) same) ∙ (==_iff user.id user.id).1 refl,
          sym (ap (λ x. x.1) h) ∙ ap (λ s. reports ++ (s ∷ [])) same,
        ),
      )

  checked-Uploaded :
      (license : Option String) (read : Option (List ℕ)) (q : Request) (user : User)
      (filename : String) (raised : Option String) (reports reports' : List Report) (r : Report)
      → elim license as (λ _. Answer Report × List Report) [
        | none ↦ (status_code 402, reports)
        | some tier ↦ elim read as (λ _. Answer Report × List Report) [
          | none ↦ (status_code 413, reports)
          | some [] ↦ (status_code 400, reports)
          | some (b ∷ bs) ↦ run_upload env rules q user tier (b ∷ bs) filename raised reports
        ]
      ]
        ≡ (answered r, reports')
      → Uploaded q user r reports reports'
  checked-Uploaded none read q user filename raised reports reports' r h =
      absurd (ground (arith, ap (λ x. x.0) h))
  checked-Uploaded (some tier) none q user filename raised reports reports' r h =
      absurd (ground (arith, ap (λ x. x.0) h))
  checked-Uploaded (some tier) (some []) q user filename raised reports reports' r h =
      absurd (ground (arith, ap (λ x. x.0) h))
  checked-Uploaded (some tier) (some (b ∷ bs)) q user filename raised reports reports' r h =
      run_upload-Uploaded q user tier (b ∷ bs) filename raised reports reports' r h

  -- The report that an upload answers is the one that its uploader is shown under its id, if no report had the id
  -- before.
  pub upload_and_analyze-get_report :
      (q later : Request) (user : User) (tier filename : String) (raised : Option String)
      (chunks : List (List ℕ)) (r : Report) (reports reports' : List Report)
      → upload_and_analyze env rules q user chunks filename raised reports ≡ (answered r, reports')
      → any (λ s. s.id == q.new_id) reports ≡ false
      → later.license ≡ some tier
      → get_report later r.id user reports' ≡ answered r
  unfolding upload_and_analyze get_report Uploaded
  upload_and_analyze-get_report q later user tier filename raised chunks r reports reports' h fresh
        licensed =
      let (same_id, (own, added)) =
        checked-Uploaded q.license _ q user filename raised reports reports' r h in
      let new_last =
        first-new (λ s. s.id == r.id) reports r
          (subst (λ n. any (λ s. s.id == n) reports ≡ false) (sym same_id) fresh)
          ((==_iff r.id r.id).1 refl) in
      ap
        (λ o. elim o as (λ _. Answer Report) [
          | none ↦ status_code 402
          | some t ↦ load r.id user reports'
        ])
        licensed
      ∙ load-owned r.id user reports' r (ap (first (λ s. s.id == r.id)) added ∙ new_last) own
