-- ===== src/Agent/Chain.antt =====
-- What the hash chain of agent/kill_switch_agent_v2.py guarantees.
use text.Mathlib.TextLemmas.{nil-append, cons-append, append_assoc, tail-eq_of_cons-eq}
use aegisiq.Agent.Ledger.{
  Entry, genesis, tip_hash, material, entry, record_action, recomputed, verify_rows, verify_ledger,
}
use aegisiq.Prelude.{
  ℕ, ◌+◌, ◌≤◌, String, ◌≡◌, refl, sym, ap, ◌∙◌, Bool, true, false, List, [], ◌∷◌, ◌++◌, arith,
  str_eq_iff, str_eq_refl, concat, join, size, decimal, take_chars_short, length, All,
}

size-append : (s t : String) → size (concat s t) ≡ size s + size t
unfolding concat
size-append String.[] t = rw (nil-append t) (omega arith)
size-append (String.◌∷◌ c s) t = rw (cons-append c s t) (omega (arith, size-append s t))

-- texts of one size at the end of equal texts are equal
same_end : (s t p q : String) → concat s p ≡ concat t q → size p ≡ size q → p ≡ q
unfolding concat
same_end String.[] String.[] p q e n = sym (nil-append p) ∙ e ∙ nil-append q
same_end String.[] (String.◌∷◌ c t) p q e n =
    absurd (omega (arith, ap size e, size-append String.[] p, size-append (String.◌∷◌ c t) q, n))
same_end (String.◌∷◌ c s) String.[] p q e n =
    absurd (omega (arith, ap size e, size-append (String.◌∷◌ c s) p, size-append String.[] q, n))
same_end (String.◌∷◌ c s) (String.◌∷◌ d t) p q e n =
    same_end s t p q (tail-eq_of_cons-eq (sym (cons-append c s p) ∙ e ∙ cons-append d t q)) n

-- The last of the joined texts stands at the end.
join_last :
    (sep : String) (xs : List String) (p : String)
    → (front : String) × (join sep (xs ++ p ∷ []) ≡ concat front p)
unfolding join concat
join_last sep [] p = ("", sym (nil-append p))
join_last sep (x ∷ []) p = (concat x sep, sym (append_assoc x sep p))
join_last sep (x ∷ y ∷ xs) p =
    let (front, e) = join_last sep (y ∷ xs) p in
    (
      concat x (concat sep front),
      rw e (sym (append_assoc x (concat sep front) p ∙ ap (concat x) (append_assoc sep front p))),
    )

verify_rows-append :
    (digest : String → String) (prev : String) (ok : Bool) (xs ys : List Entry)
    → verify_rows digest prev ok (xs ++ ys)
      ≡ verify_rows digest (tip_hash prev xs) (verify_rows digest prev ok xs) ys
unfolding verify_rows tip_hash
verify_rows-append digest prev ok [] ys = refl
verify_rows-append digest prev ok (e ∷ xs) ys = verify_rows-append digest e.row_hash _ xs ys

-- What the agent hands to the ledger.
pub record Action : Type 0 where
  pub ts : ℕ
  pub action : String
  pub target : String
  pub success : Bool
  pub output : String
  pub signature : String

module _ (digest : String → String) where
  -- An action with a short output keeps the ledger right.
  record_action-verify_ledger :
      (ts : ℕ) (action target : String) (success : Bool) (output signature : String)
      (entries : List Entry)
      → size output ≤ 2048
      → verify_ledger digest entries ≡ true
      → verify_ledger digest
          (record_action digest ts action target success output signature entries)
        ≡ true
  unfolding verify_ledger record_action entry recomputed verify_rows
  record_action-verify_ledger ts action target success output signature entries short ok =
      rw (verify_rows-append, ok, take_chars_short 2048 output short, str_eq_refl)
        (rw (str_eq_refl (tip_hash genesis entries)) refl)

  pub record_all : List Action → List Entry → List Entry
  record_all [] entries = entries
  record_all (a ∷ actions) entries =
      record_all actions
        (record_action digest a.ts a.action a.target a.success a.output a.signature entries)

  -- A ledger that was right stays right under any run of recorded actions whose outputs have at
  -- most 2048 characters.
  pub record_all-verify_ledger :
      (actions : List Action) (entries : List Entry)
      → All (λ a. size a.output ≤ 2048) actions
      → verify_ledger digest entries ≡ true
      → verify_ledger digest (record_all actions entries) ≡ true
  unfolding record_all
  record_all-verify_ledger [] entries short ok = ok
  record_all-verify_ledger (a ∷ actions) entries short ok =
      record_all-verify_ledger actions _ short.1 (
        record_action-verify_ledger a.ts a.action a.target a.success a.output a.signature entries
          short.0 ok)

  rejected_rows :
      (prev : String) (entries : List Entry) → verify_rows digest prev false entries ≡ false
  unfolding verify_rows
  rejected_rows prev [] = refl
  rejected_rows prev (e ∷ entries) = ground (arith, rejected_rows e.row_hash entries)

  -- what a ledger that is right says of its first row
  right_row :
      (prev : String) (e : Entry) (entries : List Entry)
      → verify_rows digest prev true (e ∷ entries) ≡ true
      → (digest (material e.ts e.action e.target e.success e.output e.signature e.prev_hash)
          ≡ e.row_hash)
        × (e.prev_hash ≡ prev)
        × (verify_rows digest e.row_hash true entries ≡ true)
  unfolding verify_rows recomputed
  right_row prev e entries h = ground (
    arith,
    h,
    rejected_rows e.row_hash entries,
    str_eq_iff (recomputed digest e) e.row_hash,
    str_eq_iff e.prev_hash prev,
  )

  -- What each row hash is made from.
  abbrev pub row_text : Entry → String
  row_text e = material e.ts e.action e.target e.success e.output e.signature e.prev_hash

  -- The digest does not collide on the rows of the two ledgers.
  abbrev pub NoCollision : List Entry → List Entry → Type 0
  NoCollision [] entries' = Unit
  NoCollision (e ∷ entries) [] = Unit
  NoCollision (e ∷ entries) (e' ∷ entries') =
      (digest (row_text e) ≡ digest (row_text e') → row_text e ≡ row_text e')
      × NoCollision entries entries'

  -- A digest is a text of 64 characters.
  abbrev pub HasWidth : Type 0
  HasWidth = (s : String) → size (digest s) ≡ 64

  -- Row by row, the same hashes and the same text under the hash.
  abbrev pub SameRows : List Entry → List Entry → Type 0
  SameRows [] [] = Unit
  SameRows [] (e' ∷ entries') = ⊥
  SameRows (e ∷ entries) [] = ⊥
  SameRows (e ∷ entries) (e' ∷ entries') =
      ((e.row_hash ≡ e'.row_hash) × (e.prev_hash ≡ e'.prev_hash) × (row_text e ≡ row_text e'))
      × SameRows entries entries'

  material-prev :
      (e e' : Entry)
      → size e.prev_hash ≡ size e'.prev_hash
      → material e.ts e.action e.target e.success e.output e.signature e.prev_hash
        ≡ material e'.ts e'.action e'.target e'.success e'.output e'.signature e'.prev_hash
      → e.prev_hash ≡ e'.prev_hash
  unfolding material
  material-prev e e' n same =
      let (f, a) =
        join_last "|"
          (decimal e.ts ∷ e.action ∷ e.target ∷ decimal e.success ∷ e.output ∷ e.signature ∷ [])
          e.prev_hash in
      let (g, b) =
        join_last "|"
          (decimal e'.ts
            ∷ e'.action
            ∷ e'.target
            ∷ decimal e'.success
            ∷ e'.output
            ∷ e'.signature
            ∷ [])
          e'.prev_hash in
      same_end f g e.prev_hash e'.prev_hash (sym a ∙ same ∙ b) n

  same_rows :
      (prev prev' : String) (entries entries' : List Entry)
      → HasWidth
      → NoCollision entries entries'
      → size prev ≡ 64
      → size prev' ≡ 64
      → length entries ≡ length entries'
      → verify_rows digest prev true entries ≡ true
      → verify_rows digest prev' true entries' ≡ true
      → tip_hash prev entries ≡ tip_hash prev' entries'
      → (prev ≡ prev') × SameRows entries entries'
  unfolding tip_hash
  same_rows prev prev' [] [] d free n n' same ok ok' tip = (tip, tt)
  same_rows prev prev' [] (e' ∷ entries') d free n n' same ok ok' tip = absurd (omega (arith, same))
  same_rows prev prev' (e ∷ entries) [] d free n n' same ok ok' tip = absurd (omega (arith, same))
  same_rows prev prev' (e ∷ entries) (e' ∷ entries') d free n n' same ok ok' tip =
      let (hash, link, rest) = right_row prev e entries ok in
      let (hash', link', rest') = right_row prev' e' entries' ok' in
      let size_of = d (row_text e) in
      let size_of' = d (row_text e') in
      let (row, below) =
        same_rows e.row_hash e'.row_hash entries entries' d free.1 (ap size (sym hash) ∙ size_of)
          (ap size (sym hash') ∙ size_of') (omega (arith, same)) rest rest' tip in
      let texts = free.0 (hash ∙ row ∙ sym hash') in
      let prevs = material-prev e e' (ap size link ∙ n ∙ sym n' ∙ sym (ap size link')) texts in
      (sym link ∙ prevs ∙ link', ((row, prevs, texts), below))

  -- If a digest has 64 characters, two ledgers of one length that both pass the verification and end
  -- in the same hash, and on whose rows the digest does not collide, agree row by row: in the hashes,
  -- and in the text of the fields that each hash is made from.
  pub verify_ledger_same_tip :
      (entries entries' : List Entry)
      → HasWidth
      → NoCollision entries entries'
      → length entries ≡ length entries'
      → verify_ledger digest entries ≡ true
      → verify_ledger digest entries' ≡ true
      → tip_hash genesis entries ≡ tip_hash genesis entries'
      → SameRows entries entries'
  unfolding verify_ledger
  verify_ledger_same_tip entries entries' d free same ok ok' tip =
      (same_rows genesis genesis entries entries' d free refl refl same ok ok' tip).1
