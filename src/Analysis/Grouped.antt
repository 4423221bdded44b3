-- ===== src/Analysis/Grouped.antt =====
-- What grouping does: a key has the indexes of its events, once.
use mathlib.Core.Path.{subst}
use mathlib.Core.List.{append-nil, append_assoc}
use aegisiq.Analysis.Groups.{collect, Groups, append_to, append_all, group, indexes_at, positions}
use aegisiq.Prelude.{
  ℕ, suc, ◌+◌, ◌≡◌, refl, sym, ap, ◌∙◌, ◌↔◌, inl, inr, Bool, true, false, not, ◌&&◌, Option, none,
  some, List, [], ◌∷◌, ◌++◌, arith, leb, if◌then◌else◌, Bool-cases, before, after, length,
  length-append, count_if, All,
}

-- A test on what an element becomes.
unfoldable pub hit {κ} : {B : Type κ} → (B → Bool) → Option B → Bool
hit p none = false
hit p (some b) = p b

-- A test on what two conditions let through.
pub hit-guarded :
    {B : Type 0}
    → (p : B → Bool) (skip keep : Bool) (b : B)
    → hit p (if skip then none else if keep then some b else none) ≡ (not skip && (keep && p b))
unfolding hit
hit-guarded p true keep b = refl
hit-guarded p false true b = refl
hit-guarded p false false b = refl

count_if-kept :
    {B : Type 0}
    → (p : B → Bool) (o : Option B) (rest : List B)
    → count_if p (elim o [ none ↦ rest | some b ↦ b ∷ rest ])
      ≡ (if hit p o then 1 else 0) + count_if p rest
unfolding hit count_if
count_if-kept p none rest = omega arith
count_if-kept p (some b) rest = omega arith

pub count_if-collect-cons :
    {A B : Type 0}
    → (p : B → Bool) (f : A → Option B) (x : A) (xs : List A)
    → count_if p (collect f (x ∷ xs)) ≡ (if hit p (f x) then 1 else 0) + count_if p (collect f xs)
unfolding collect
count_if-collect-cons p f x xs = count_if-kept p (f x) (collect f xs)

pub length-positions :
    {E : Type 0}
    → (test : E → Bool) (i : ℕ) (events : List E)
    → length (positions test i events) ≡ count_if test events
unfolding positions count_if
length-positions test i [] = refl
length-positions test i (e ∷ es) = ground (arith, length-positions test (suc i) es)

module _ {K : Type 0} (same : K → K → Bool)
    (same_iff : (j k : K) → (same j k ≡ true) ↔ (j ≡ k)) where
  -- the index once for each occurrence of the key
  unfoldable pub repeats : K → List K → ℕ → List ℕ
  repeats key [] i = []
  repeats key (k ∷ keys) i = let rest = repeats key keys i in if same k key then i ∷ rest else rest

  unfoldable pub occurrences : {E : Type 0} → K → (E → List K) → ℕ → List E → List ℕ
  unfolding repeats
  occurrences key keys_of i [] = []
  occurrences key keys_of i (e ∷ es) =
      repeats key (keys_of e) i ++ occurrences key keys_of (suc i) es

  one_if : Bool → ℕ → List ℕ
  one_if b i = if b then i ∷ [] else []

  indexes_at-append_to :
      (key k : K) (i : ℕ) (groups : Groups K)
      → indexes_at same key (append_to same k i groups)
        ≡ indexes_at same key groups ++ one_if (same k key) i
  unfolding indexes_at append_to one_if
  indexes_at-append_to key k i [] = refl
  indexes_at-append_to key k i ((j, indexes) ∷ groups) = elim (Bool-cases (same j k)) [
    | inl here ↦
        let as_key : same k key ≡ same j key = ap (λ x. same x key) (sym ((same_iff j k).0 here)) in
        elim (Bool-cases (same j key)) [
          | inl mine ↦ simp (here, as_key, mine, if◌then◌else◌) refl
          | inr other ↦ simp (here, as_key, other, if◌then◌else◌) (sym (append-nil _))
        ]
    | inr there ↦ elim (Bool-cases (same j key)) [
      | inl mine ↦
          let not_k : same k key ≡ false =
            ground (arith, there, mine, same_iff j k, same_iff k key, same_iff j key) in
          simp (there, mine, not_k, if◌then◌else◌) (sym (append-nil _))
      | inr other ↦ simp (there, other, if◌then◌else◌) (indexes_at-append_to key k i groups)
    ]
  ]

  one_more :
      (before after : List ℕ) (i : ℕ) (b : Bool)
      → (before ++ one_if b i) ++ after ≡ before ++ (if b then i ∷ after else after)
  unfolding one_if
  one_more before after i true = append_assoc before (i ∷ []) after
  one_more before after i false = ap (λ l. l ++ after) (append-nil before)

  indexes_at-append_all :
      (key : K) (keys : List K) (i : ℕ) (groups : Groups K)
      → indexes_at same key (append_all same keys i groups)
        ≡ indexes_at same key groups ++ repeats key keys i
  unfolding append_all repeats one_if
  indexes_at-append_all key [] i groups = sym (append-nil (indexes_at same key groups))
  indexes_at-append_all key (k ∷ keys) i groups =
      indexes_at-append_all key keys i (append_to same k i groups)
      ∙ (ap (λ l. l ++ repeats key keys i) (indexes_at-append_to key k i groups)
          ∙ one_more (indexes_at same key groups) (repeats key keys i) i (same k key))

  pub indexes_at-group :
      {E : Type 0}
      → (key : K) (keys_of : E → List K) (i : ℕ) (events : List E) (groups : Groups K)
      → indexes_at same key (group same keys_of i events groups)
        ≡ indexes_at same key groups ++ occurrences key keys_of i events
  unfolding group occurrences
  indexes_at-group key keys_of i [] groups = sym (append-nil (indexes_at same key groups))
  indexes_at-group key keys_of i (e ∷ es) groups =
      indexes_at-group key keys_of (suc i) es (append_all same (keys_of e) i groups)
      ∙ (ap (λ l. l ++ occurrences key keys_of (suc i) es)
            (indexes_at-append_all key (keys_of e) i groups)
          ∙ append_assoc (indexes_at same key groups) (repeats key (keys_of e) i)
              (occurrences key keys_of (suc i) es))

  -- No group has the key.
  unfoldable pub Fresh : K → Groups K → Type 0
  Fresh key groups = All (λ g. same g.0 key ≡ false) groups

  -- Every key has one group.
  unfoldable pub Apart : Groups K → Type 0
  unfolding Fresh
  Apart [] = Unit
  Apart ((k, indexes) ∷ groups) = Fresh k groups × Apart groups

  Fresh-append_to :
      (key k : K) (i : ℕ) (groups : Groups K)
      → same k key ≡ false
      → Fresh key groups
      → Fresh key (append_to same k i groups)
  unfolding Fresh append_to
  Fresh-append_to key k i [] h f = (h, tt)
  Fresh-append_to key k i ((j, indexes) ∷ groups) h f = elim (Bool-cases (same j k)) [
    | inl e ↦ rw (e, if◌then◌else◌) (f.0, f.1)
    | inr e ↦ rw (e, if◌then◌else◌) (f.0, Fresh-append_to key k i groups h f.1)
  ]

  Apart-append_to :
      (k : K) (i : ℕ) (groups : Groups K) → Apart groups → Apart (append_to same k i groups)
  unfolding Apart append_to Fresh
  Apart-append_to k i [] a = (tt, tt)
  Apart-append_to k i ((j, indexes) ∷ groups) a = elim (Bool-cases (same j k)) [
    | inl e ↦ rw (e, if◌then◌else◌) (a.0, a.1)
    | inr e ↦
        rw (e, if◌then◌else◌)
          (
            Fresh-append_to j k i groups (ground (arith, e, same_iff j k, same_iff k j)) a.0,
            Apart-append_to k i groups a.1,
          )
  ]

  Apart-append_all :
      (keys : List K) (i : ℕ) (groups : Groups K)
      → Apart groups
      → Apart (append_all same keys i groups)
  unfolding append_all
  Apart-append_all [] i groups a = a
  Apart-append_all (k ∷ keys) i groups a =
      Apart-append_all keys i (append_to same k i groups) (Apart-append_to k i groups a)

  pub Apart-group :
      {E : Type 0}
      → (keys_of : E → List K) (i : ℕ) (events : List E) (groups : Groups K) → Apart groups
      → Apart (group same keys_of i events groups)
  unfolding group
  Apart-group keys_of i [] groups a = a
  Apart-group keys_of i (e ∷ es) groups a =
      Apart-group keys_of (suc i) es (append_all same (keys_of e) i groups)
        (Apart-append_all (keys_of e) i groups a)

  untold :
      {B : Type 0}
      → (f : K × List ℕ → Option B) (p : B → Bool) (key : K)
      → ((k : K) (indexes : List ℕ) → same k key ≡ false → hit p (f (k, indexes)) ≡ false)
      → (groups : Groups K) → Fresh key groups
      → count_if p (collect f groups) ≡ 0
  unfolding Fresh collect count_if
  untold f p key alone [] h = refl
  untold f p key alone ((k, indexes) ∷ groups) h = ground (
    arith,
    count_if-collect-cons p f (k, indexes) groups,
    alone k indexes h.0,
    untold f p key alone groups h.1,
  )

  -- No group is empty.
  unfoldable pub Filled : Groups K → Type 0
  Filled groups = All (λ g. leb 1 (length g.1) ≡ true) groups

  Filled-append_to :
      (k : K) (i : ℕ) (groups : Groups K) → Filled groups → Filled (append_to same k i groups)
  unfolding Filled append_to
  Filled-append_to k i [] f = (refl, tt)
  Filled-append_to k i ((j, indexes) ∷ groups) f = elim (Bool-cases (same j k)) [
    | inl e ↦ rw (e, if◌then◌else◌) (ground (arith, length-append indexes (i ∷ [])), f.1)
    | inr e ↦ rw (e, if◌then◌else◌) (f.0, Filled-append_to k i groups f.1)
  ]

  Filled-append_all :
      (keys : List K) (i : ℕ) (groups : Groups K)
      → Filled groups
      → Filled (append_all same keys i groups)
  unfolding append_all
  Filled-append_all [] i groups f = f
  Filled-append_all (k ∷ keys) i groups f =
      Filled-append_all keys i (append_to same k i groups) (Filled-append_to k i groups f)

  pub Filled-group :
      {E : Type 0}
      → (keys_of : E → List K) (i : ℕ) (events : List E) (groups : Groups K) → Filled groups
      → Filled (group same keys_of i events groups)
  unfolding group
  Filled-group keys_of i [] groups f = f
  Filled-group keys_of i (e ∷ es) groups f =
      Filled-group keys_of (suc i) es (append_all same (keys_of e) i groups)
        (Filled-append_all (keys_of e) i groups f)

  -- If only the group of a key can become what a test wants, the test passes as often as that group
  -- passes it: once at most.
  pub tally :
      {B : Type 0}
      → (f : K × List ℕ → Option B) (p : B → Bool) (key : K)
      → ((k : K) (indexes : List ℕ) → same k key ≡ false → hit p (f (k, indexes)) ≡ false)
      → (groups : Groups K) → Apart groups
      → Filled groups
      → count_if p (collect f groups) ≡ (
          if leb 1 (length (indexes_at same key groups))
            && hit p (f (key, indexes_at same key groups))
          then 1
          else 0)
  unfolding Apart Filled indexes_at collect count_if
  tally f p key alone [] a full = refl
  tally f p key alone ((k, indexes) ∷ groups) a full =
      count_if-collect-cons p f (k, indexes) groups ∙ elim (Bool-cases (same k key)) [
        | inl e ↦
            let is_it : k ≡ key = (same_iff k key).0 e in
            let rest = untold f p key alone groups (subst (λ x. Fresh x groups) is_it a.0) in
            let self : same key key ≡ true = (same_iff key key).1 refl in
            rw (is_it, self, if◌then◌else◌, rest, full.0) (omega arith)
        | inr e ↦
            rw (e, if◌then◌else◌, alone k indexes e)
              (omega (arith, tally f p key alone groups a.1 full.1))
      ]

  -- keys of which an event has one at most
  pub occurrences-positions :
      {E : Type 0}
      → (key : K) (test : E → Bool) (key_of : E → K) (i : ℕ) (events : List E)
      → occurrences key (λ e. if test e then key_of e ∷ [] else []) i events
        ≡ positions (λ e. test e && same (key_of e) key) i events
  unfolding occurrences positions repeats
  occurrences-positions key test key_of i [] = refl
  occurrences-positions key test key_of i (e ∷ es) =
      let later = occurrences-positions key test key_of (suc i) es in
      elim (Bool-cases (test e)) [
        | inl t ↦ elim (Bool-cases (same (key_of e) key)) [
          | inl s ↦ simp (t, s, if◌then◌else◌, later) refl
          | inr n ↦ simp (t, n, if◌then◌else◌, later) refl
        ]
        | inr f ↦ simp (f, if◌then◌else◌, later) refl
      ]

  -- The group of a key after grouping events of which each has one key at most.
  pub indexes_at-group-positions :
      {E : Type 0}
      → (key : K) (test : E → Bool) (key_of : E → K) (events : List E)
      → indexes_at same key (group same (λ e. if test e then key_of e ∷ [] else []) 0 events [])
        ≡ positions (λ e. test e && same (key_of e) key) 0 events
  unfolding indexes_at
  indexes_at-group-positions key test key_of events =
      indexes_at-group key _ 0 events [] ∙ occurrences-positions key test key_of 0 events

  -- `tally` on the groups of events of which each has one key at most
  pub tally-positions :
      {E B : Type 0}
      → (f : K × List ℕ → Option B) (p : B → Bool) (key : K)
      → ((k : K) (indexes : List ℕ) → same k key ≡ false → hit p (f (k, indexes)) ≡ false)
      → (test : E → Bool) (key_of : E → K) (events : List E)
      → count_if p (collect f (group same (λ e. if test e then key_of e ∷ [] else []) 0 events []))
        ≡ (if leb 1 (count_if (λ e. test e && same (key_of e) key) events)
              && hit p (f (key, positions (λ e. test e && same (key_of e) key) 0 events))
            then 1
            else 0)
  unfolding Apart Filled
  tally-positions f p key alone test key_of events =
      tally f p key alone _ (Apart-group (λ e. if test e then key_of e ∷ [] else []) 0 events [] tt)
        (Filled-group (λ e. if test e then key_of e ∷ [] else []) 0 events [] tt)
      ∙ (ap (λ indexes. if leb 1 (length indexes) && hit p (f (key, indexes)) then 1 else 0)
            (indexes_at-group-positions key test key_of events)
          ∙ ap
              (λ n.
                if leb 1 n
                  && hit p (f (key, positions (λ e. test e && same (key_of e) key) 0 events))
                then 1
                else 0)
              (length-positions (λ e. test e && same (key_of e) key) 0 events))
