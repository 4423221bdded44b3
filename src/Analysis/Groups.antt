-- ===== src/Analysis/Groups.antt =====
-- The `defaultdict(list)` that the analysis groups its events with, in insertion order.
use aegisiq.Prelude.{ℕ, suc, Bool, Option, none, some, List, [], ◌∷◌, ◌++◌, if◌then◌else◌}

unfoldable pub collect {ℓ κ} : {A : Type ℓ} {B : Type κ} → (A → Option B) → List A → List B
collect f [] = []
collect f (x ∷ xs) = let rest = collect f xs in elim (f x) [ none ↦ rest | some y ↦ y ∷ rest ]

abbrev pub Groups : Type 0 → Type 0
Groups K = List (K × List ℕ)

module _ {K : Type 0} (same : K → K → Bool) where
  -- `groups[key].append(i)`
  unfoldable pub append_to : K → ℕ → Groups K → Groups K
  append_to key i [] = (key, i ∷ []) ∷ []
  append_to key i ((k, indexes) ∷ groups) =
      let later = append_to key i groups in
      if same k key then (k, indexes ++ (i ∷ [])) ∷ groups else (k, indexes) ∷ later

  unfoldable pub append_all : List K → ℕ → Groups K → Groups K
  unfolding append_to
  append_all [] i groups = groups
  append_all (key ∷ keys) i groups = append_all keys i (append_to key i groups)

  -- the loop over the events, from an index on: an event goes into the groups of its keys
  unfoldable pub group : {E : Type 0} → (E → List K) → ℕ → List E → Groups K → Groups K
  unfolding append_all
  group keys_of i [] groups = groups
  group keys_of i (e ∷ es) groups = group keys_of (suc i) es (append_all (keys_of e) i groups)

  -- the indexes that a key has, none for a key that is not there
  unfoldable pub indexes_at : K → Groups K → List ℕ
  indexes_at key [] = []
  indexes_at key ((k, indexes) ∷ groups) =
      let later = indexes_at key groups in if same k key then indexes else later

-- `[i for i, e in enumerate(events) if test(e)]`, from an index on
unfoldable pub positions : {E : Type 0} → (E → Bool) → ℕ → List E → List ℕ
positions test i [] = []
positions test i (e ∷ es) =
    let rest = positions test (suc i) es in if test e then i ∷ rest else rest
