-- ===== src/Audit/Sql.antt =====
-- internal/infrastructure/auditstore/sql_store.go: the store behind `database/sql`. The database and
-- its driver are parameters.
pub mod Laws
use lumen_mcp_server.Base.{
  Bool, not_pos, ℕ, ◌≡◌, String, Option, none, some, List, [], ◌∷◌, ◌++◌, map, reverse, take, ℤ,
  pos, lt_int, to_nat, Result, ok, err, if◌then◌else◌,
}
use lumen_mcp_server.Domain.{Event}
use lumen_mcp_server.Ports.{AuditStore}

-- What `rows` yields: the scan of each row, and the error that `rows.Err` reports at the end.
pub record Rows : Type 0 where
  pub scans : List (Result String Event)
  pub failure : Option String

-- The two statements of the store, on the database's state: the INSERT of a row, and the SELECT of
-- at most so many rows in descending order of `id`; and the capacities for which the runtime's `make`
-- gives a slice of events, rather than panic because they are out of range.
pub record Database (D : Type 0) : Type 0 where
  pub insert_row : D → Event → Option String × D
  pub select_rows : D → ℕ → Result String Rows × D
  pub can_make : ℕ → Bool

-- The documented behaviour of a table with an ascending key: `log` is its rows in the order of their
-- ids. A statement that fails leaves them alone. Of a new row's event everything is kept but its time,
-- which a column may keep with less precision.
pub record IsTable {D : Type 0} (db : Database D) (log : D → List Event) : Type 0 where
  pub kept : Event → Event
  pub kept_same : (e : Event) → kept e ≡ record e { at = (kept e).at }
  pub inserted :
      (d : D) (e : Event)
      → (db.insert_row d e).0 ≡ none
      → log (db.insert_row d e).1 ≡ log d ++ kept e ∷ []
  pub not_inserted :
      (d : D) (e : Event) (m : String)
      → (db.insert_row d e).0 ≡ some m
      → log (db.insert_row d e).1 ≡ log d
  pub selected :
      (d : D) (n : ℕ) (rows : Rows)
      → (db.select_rows d n).0 ≡ ok rows
      → rows.failure ≡ none
      → rows.scans ≡ map ok (take n (reverse (log d)))
  pub unchanged : (d : D) (n : ℕ) → log (db.select_rows d n).1 ≡ log d

-- the loop over `rows.Next()`, from the events read so far
scan_rows : List Event → List (Result String Event) → Result String (List Event)
scan_rows out [] = ok out
scan_rows out (err e ∷ scans) = err e
scan_rows out (ok event ∷ scans) = scan_rows (out ++ event ∷ []) scans

-- the check of `rows.Err()`
finish : Option String → List Event → Result String (List Event)
finish none out = ok out
finish (some e) out = err e

read_rows : Result String Rows → Result String (List Event)
unfolding scan_rows finish
read_rows (err e) = err e
read_rows (ok rows) = elim (scan_rows [] rows.scans) [
  | ok out ↦ finish rows.failure out
  | err e ↦ err e
]

-- the `limit` of the statement
abbrev pub sql_limit : ℤ → ℕ
sql_limit limit = if not_pos limit then 20 else to_nat limit

module _ {D : Type 0} (db : Database D) where
  unfoldable pub append : D → Event → Option String × D
  append d event = db.insert_row d event

  -- what follows the query; `none` is the panic of `make`
  after_query : ℕ → Result String Rows → Option (Result String (List Event))
  unfolding read_rows
  after_query limit (err e) = some (err e)
  after_query limit (ok rows) = if db.can_make limit then some (read_rows (ok rows)) else none

  unfoldable pub list : D → ℤ → Option (Result String (List Event)) × D
  unfolding after_query
  list d limit =
      let (rows, d') = db.select_rows d (sql_limit limit) in
      (after_query (sql_limit limit) rows, d')

  unfoldable pub sql_store : AuditStore D
  sql_store = record { append = append; list = list }
