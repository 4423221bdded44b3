-- ===== src/LogStore/Relational.antt =====
-- backend/app/storage/sqlalchemy_store.py over the table of logs. A `filter` keeps the rows that
-- pass every test, a comparison with None is IS NULL, and COUNT(DISTINCT c) counts the values once.
use aegisiq.LogStore.Defs.{LogStore}
use aegisiq.Models.Json.{get, fields_of, text_of}
use aegisiq.Models.Log.{Log}
use aegisiq.Prelude.{
  ℕ, String, Bool, ◌&&◌, Option, none, some, List, [], ◌∷◌, leb, ◌==◌, str_eq, opt_eq, truthy,
  if◌then◌else◌, where_rows, any, length, count_if,
}

-- `Log.timestamp >= window_start, Log.timestamp <= window_end`
unfoldable pub in_window : ℕ → ℕ → Log → Bool
in_window start stop row = leb start row.timestamp && leb row.timestamp stop

unfoldable pub is_event : String → Option String → ℕ → ℕ → Log → Bool
unfolding in_window
is_event event_type source_ip start stop row =
    str_eq row.event_type event_type && (opt_eq row.source_ip source_ip && in_window start stop row)

-- the values of a column, NULL left out, each once
module _ {ℓ} {A : Type ℓ} (same : A → A → Bool) (column : Log → Option A) where
  unfoldable pub add_value : Option A → List A → List A
  add_value none seen = seen
  add_value (some v) seen = if any (same v) seen then seen else v ∷ seen

  unfoldable pub distinct : List Log → List A
  distinct [] = []
  distinct (row ∷ rows) = add_value (column row) (distinct rows)

unfoldable pub by_actor : Option String → Option String → Log → Bool
by_actor username source_ip row =
    if truthy username then opt_eq row.username username else opt_eq row.source_ip source_ip

-- `Log.normalized_data["path"].as_string() == path`
unfoldable pub has_path : String → Log → Bool
has_path path row = opt_eq (text_of (get "path" (fields_of row.normalized_data))) (some path)

unfoldable pub is_port_access : Option String → ℕ → ℕ → Log → Bool
is_port_access = is_event "port_access"

unfoldable pub sqlalchemy_store : List Log → LogStore
sqlalchemy_store rows = record {
  count_events =
      λ event_type source_ip start stop. count_if (is_event event_type source_ip start stop) rows;
  count_distinct_ports = λ source_ip start stop. length (
      distinct ◌==◌ (λ row. row.destination_port)
        (where_rows (is_port_access source_ip start stop) rows));
  count_distinct_usernames = λ event_type source_ip start stop. length (
      distinct str_eq (λ row. row.username)
        (where_rows (is_event event_type source_ip start stop) rows));
  count_events_by_actor = λ event_type username source_ip start stop.
      count_if
        (λ row.
          str_eq row.event_type event_type
          && (by_actor username source_ip row && in_window start stop row))
        rows;
  count_by_normalized_path = λ event_type path start stop.
      count_if
        (λ row. str_eq row.event_type event_type && (has_path path row && in_window start stop row))
        rows;
}
