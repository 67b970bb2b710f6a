-- ===== src/Audit/Backend.antt =====
-- internal/infrastructure/auditstore/store.go, sqlite_store.go and postgres_store.go: the choice of
-- the backend, and opening a database. The drivers are parameters.
use lumen_mcp_server.Base.{
  eq_iff, arith, ◌↔◌, String, ◌≡◌, Option, none, some, Result, ok, err, if◌then◌else◌, ◌==◌, ◌<>◌,
}
use lumen_mcp_server.Audit.Memory.{MemoryStore, new_memory}

-- What `database/sql` does for a store: open a handle, ping it, create the table, close it.
pub record Driver (D : Type 0) : Type 0 where
  pub open_handle : String → Result String D
  pub ping : D → Option String
  pub init_schema : D → Option String

-- A store that is ready, or the error; a handle that is opened in vain is closed.
pub data Opened (D : Type 0) : Type 0 where
  opened : D → Opened D
  not_opened : String → Opened D
  closed : D → String → Opened D

-- `fmt.Errorf(prefix + "%w", err)` around the error of `initSchema`
after_schema : {D : Type 0} → String → D → Option String → Opened D
after_schema context db none = opened db
after_schema context db (some e) = closed db (context <> e)

after_ping : {D : Type 0} → Driver D → String → D → Option String → Opened D
unfolding after_schema
after_ping driver context db none = after_schema context db (driver.init_schema db)
after_ping driver context db (some e) = closed db e

open_database : {D : Type 0} → Driver D → String → String → Opened D
unfolding after_ping
open_database driver context target = elim (driver.open_handle target) [
  | err e ↦ not_opened e
  | ok db ↦ after_ping driver context db (driver.ping db)
]

open_sqlite : {D : Type 0} → Driver D → String → Opened D
unfolding open_database
open_sqlite driver path = open_database driver "init sqlite schema: " path

open_postgres : {D : Type 0} → Driver D → String → Opened D
unfolding open_database
open_postgres driver url = open_database driver "init postgres schema: " url

-- The store, or the error; `stdout` keeps events in memory.
pub data Backend (D : Type 0) : Type 0 where
  memory : MemoryStore → Backend D
  sqlite postgres : D → Backend D

abbrev pub ready : {D : Type 0} → String → (D → Backend D) → Opened D → Result String (Backend D)
ready context backend (opened db) = ok (backend db)
ready context backend (not_opened e) = err (context <> e)
ready context backend (closed db e) = err (context <> e)

module _ {D : Type 0} (sqlite_driver postgres_driver : Driver D) where
  unfoldable pub new_audit_store : String → String → String → Result String (Backend D)
  unfolding open_sqlite open_postgres
  new_audit_store backend sqlite_path postgres_url =
      if backend == "stdout"
      then ok (memory new_memory)
      else if backend == "sqlite"
      then ready "open sqlite audit store: " sqlite (open_sqlite sqlite_driver sqlite_path)
      else if backend == "postgres"
      then ready "open postgres audit store: " postgres (open_postgres postgres_driver postgres_url)
      else err ("unsupported audit backend: " <> backend)

  -- Events are kept in memory exactly if the backend is `stdout`.
  pub new_audit_store-stdout :
      (backend sqlite_path postgres_url : String) (m : MemoryStore)
      → (new_audit_store backend sqlite_path postgres_url ≡ ok (memory m))
        ↔ ((backend ≡ "stdout") × (m ≡ new_memory))
  unfolding new_audit_store
  new_audit_store-stdout backend sqlite_path postgres_url m =
      ground (arith, eq_iff backend "stdout")
