-- ===== src/LogStore.antt =====
-- backend/app/storage/base.py: the event store that the detection rules query. `Relational` is the
-- default backend, backend/app/storage/sqlalchemy_store.py, and `Counts` its laws.
mod Defs
pub mod Relational
pub mod Counts
pub use Defs.{LogStore}
