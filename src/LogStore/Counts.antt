-- ===== src/LogStore/Counts.antt =====
-- What the counts of backend/app/storage/sqlalchemy_store.py count.
use aegisiq.LogStore.Relational.{distinct, add_value, sqlalchemy_store, is_port_access}
use aegisiq.Models.Log.{Log}
use aegisiq.Prelude.{
  ℕ, ◌+◌, String, ◌≡◌, refl, ap, ◌∙◌, ◌↔◌, inl, inr, Bool, true, false, ◌||◌, Option, none, some,
  List, [], ◌∷◌, arith, ◌==◌, if◌then◌else◌, Bool-cases, ==_iff, length, where_rows, any,
}

module _ {ℓ} {A : Type ℓ} (same : A → A → Bool) (same_iff : (a b : A) → (same a b ≡ true) ↔ (a ≡ b))
    (column : Log → Option A) where
  has_value : A → Option A → Bool
  has_value v none = false
  has_value v (some w) = same v w

  -- Whether the column takes the value in some row.
  pub takes_value : A → List Log → Bool
  takes_value v rows = any (λ row. has_value v (column row)) rows

  any-add_value :
      (v : A) (o : Option A) (seen : List A)
      → any (same v) (add_value same column o seen) ≡ (has_value v o || any (same v) seen)
  unfolding add_value any has_value
  any-add_value v none seen = refl
  any-add_value v (some w) seen = elim (Bool-cases (any (same w) seen)) [
    | inl old ↦
        rw (old, if◌then◌else◌)
          (elim (Bool-cases (same v w)) [
            | inl e ↦ rw e (rw ((same_iff v w).0 e) old)
            | inr n ↦ rw n refl
          ])
    | inr new ↦ rw (new, if◌then◌else◌) refl
  ]

  any-distinct :
      (v : A) (rows : List Log) → any (same v) (distinct same column rows) ≡ takes_value v rows
  unfolding distinct takes_value any
  any-distinct v [] = refl
  any-distinct v (row ∷ rows) =
      any-add_value v (column row) (distinct same column rows)
      ∙ ap (λ b. has_value v (column row) || b) (any-distinct v rows)

  -- One more value: counted if no earlier row has it.
  length-add_value :
      (w : A) (rows : List Log)
      → length (add_value same column (some w) (distinct same column rows))
        ≡ (if takes_value w rows then 0 else 1) + length (distinct same column rows)
  unfolding add_value
  length-add_value w rows = ground (arith, any-distinct w rows)

  -- A row with a NULL, or with a value that the rows before it have, adds nothing to
  -- COUNT(DISTINCT column); any other row adds one.
  pub length-distinct-cons :
      (row : Log) (rows : List Log) (v : A)
      → column row ≡ some v
      → length (distinct same column (row ∷ rows))
        ≡ (if takes_value v rows then 0 else 1) + length (distinct same column rows)
  unfolding distinct
  length-distinct-cons row rows v e = rw e (length-add_value v rows)

-- Whether a row of the window has the port.
pub port_seen : Option String → ℕ → ℕ → ℕ → List Log → Bool
port_seen source_ip start stop p rows =
    takes_value ◌==◌ ==_iff (λ row. row.destination_port) p
      (where_rows (is_port_access source_ip start stop) rows)

-- A connection of the window to a port adds one to the count of distinct ports if no row of the
-- window has that port, and nothing if one has it.
pub count_distinct_ports-cons :
    (row : Log) (rows : List Log) (source_ip : Option String) (start stop p : ℕ)
    → is_port_access source_ip start stop row ≡ true
    → row.destination_port ≡ some p
    → (sqlalchemy_store (row ∷ rows)).count_distinct_ports source_ip start stop
      ≡ (if port_seen source_ip start stop p rows then 0 else 1)
        + (sqlalchemy_store rows).count_distinct_ports source_ip start stop
unfolding sqlalchemy_store port_seen where_rows
count_distinct_ports-cons row rows source_ip start stop p inside port =
    rw (inside, if◌then◌else◌)
      (length-distinct-cons ◌==◌ ==_iff (λ r. r.destination_port) row
        (where_rows (is_port_access source_ip start stop) rows) p port)
