-- ===== src/Bootstrap/Wiring/Stored.antt =====
-- The store of events of any backend, as an implementation of a log.
use lumen_mcp_server.Base.{
  ap, not_pos, to_nat, true, false, Bool-cases, arith, ◌-◌, length, ℕ, ◌-◌, String, none, some,
  List, [], ◌∷◌, ◌++◌, length, ℤ, ok, ◌≡◌, ◌⊎◌, inl, inr, refl, sym, ◌∙◌, drop, reverse,
  take-reverse,
}
use lumen_mcp_server.Domain.{Event}
use lumen_mcp_server.Ports.{AuditStore}
use lumen_mcp_server.Audit.Memory
use lumen_mcp_server.Audit.Memory.{effective_limit, memory_store}
use lumen_mcp_server.Audit.Sql
use lumen_mcp_server.Audit.Sql.{IsTable, sql_limit, sql_store}
use lumen_mcp_server.Audit.Sql.Laws.{list_shown}
use lumen_mcp_server.Audit.Backend.{Backend, memory, sqlite, postgres}
use lumen_mcp_server.Bootstrap.Wiring.{Outside, backend_store, append_to, list_from}

-- How many of a log's last events a listing shows: as many as a positive limit says; for any other
-- limit all of them, or 20.
abbrev pub IsCount : List Event → ℤ → ℕ → Type 0
IsCount log limit k =
    ((not_pos limit ≡ false) × (k ≡ to_nat limit))
    ⊎ ((not_pos limit ≡ true) × ((k ≡ length log) ⊎ (k ≡ 20)))

-- The last events of a log, the oldest or the newest of them first.
abbrev pub IsEnd : List Event → ℤ → List Event → Type 0
IsEnd log limit out =
    (k : ℕ) × IsCount log limit k
    × ((out ≡ drop (length log - k) log) ⊎ (out ≡ reverse (drop (length log - k) log)))

-- A store whose state stands for a log: an append that succeeds puts what is kept of the event at the
-- end of the log, which is all of it but perhaps the time; one that fails leaves the log alone, and so
-- does a listing, which shows the log's last events if it succeeds.
pub record Refines {A : Type 0} (store : AuditStore A) (log : A → List Event)
    (kept : A → Event → Event) : Type 0 where
  pub kept_same : (a : A) (e : Event) → kept a e ≡ record e { at = (kept a e).at }
  pub appended :
      (a : A) (e : Event)
      → (store.append a e).0 ≡ none
      → log (store.append a e).1 ≡ log a ++ kept a e ∷ []
  pub not_appended :
      (a : A) (e : Event) (m : String)
      → (store.append a e).0 ≡ some m
      → log (store.append a e).1 ≡ log a
  pub listed : (a : A) (limit : ℤ) → log (store.list a limit).1 ≡ log a
  pub shown :
      (a : A) (limit : ℤ) (out : List Event)
      → (store.list a limit).0 ≡ some (ok out)
      → IsEnd (log a) limit out

-- The log of a backend, by that of a database.
abbrev pub log_of : {D : Type 0} → (D → List Event) → Backend D → List Event
log_of log (memory m) = m.events
log_of log (sqlite d) = log d
log_of log (postgres d) = log d

-- What a backend keeps of an event, by what a table keeps of it.
abbrev pub kept_by : {D : Type 0} → (Event → Event) → Backend D → Event → Event
kept_by kept (memory m) e = e
kept_by kept (sqlite d) e = kept e
kept_by kept (postgres d) e = kept e

effective_limit-IsCount :
    (log : List Event) (limit : ℤ)
    → (k : ℕ) × IsCount log limit k
      × (length log - effective_limit limit (length log) ≡ length log - k)
effective_limit-IsCount log limit = elim (Bool-cases (not_pos limit)) [
  | inl all ↦ (length log, inr (all, inl refl), ground arith)
  | inr some_limit ↦ (to_nat limit, inl (some_limit, refl), ground arith)
]

sql_limit-IsCount : (log : List Event) (limit : ℤ) → IsCount log limit (sql_limit limit)
sql_limit-IsCount log limit = elim (Bool-cases (not_pos limit)) [
  | inl all ↦ inr (all, inr (ground arith))
  | inr some_limit ↦ inl (some_limit, ground arith)
]

module _ {F W D : Type 0} (x : Outside F W D) (log : D → List Event)
    (table : IsTable x.database log) where
  append-appended :
      (b : Backend D) (e : Event)
      → (append_to x b e).0 ≡ none
      → log_of log (append_to x b e).1 ≡ log_of log b ++ kept_by table.kept b e ∷ []
  unfolding append_to memory_store Memory.append sql_store Sql.append
  append-appended (memory m) e h = refl
  append-appended (sqlite d) e h = table.inserted d e h
  append-appended (postgres d) e h = table.inserted d e h

  append-not_appended :
      (b : Backend D) (e : Event) (m : String)
      → (append_to x b e).0 ≡ some m
      → log_of log (append_to x b e).1 ≡ log_of log b
  unfolding append_to memory_store Memory.append sql_store Sql.append
  append-not_appended (memory s) e m h = cc h
  append-not_appended (sqlite d) e m h = table.not_inserted d e m h
  append-not_appended (postgres d) e m h = table.not_inserted d e m h

  list-listed : (b : Backend D) (limit : ℤ) → log_of log (list_from x b limit).1 ≡ log_of log b
  unfolding list_from memory_store Memory.list sql_store Sql.list
  list-listed (memory s) limit = refl
  list-listed (sqlite d) limit = table.unchanged d _
  list-listed (postgres d) limit = table.unchanged d _

  sql-IsEnd :
      (d : D) (limit : ℤ) (out : List Event)
      → (Sql.list x.database d limit).0 ≡ some (ok out)
      → IsEnd (log d) limit out
  sql-IsEnd d limit out h =
      let (_, _, _, _, same) = list_shown x.database log table d limit out h in
      (
        sql_limit limit,
        sql_limit-IsCount (log d) limit,
        inr (same ∙ take-reverse (sql_limit limit) (log d)),
      )

  list-IsEnd :
      (b : Backend D) (limit : ℤ) (out : List Event)
      → (list_from x b limit).0 ≡ some (ok out)
      → IsEnd (log_of log b) limit out
  unfolding list_from memory_store Memory.list sql_store
  list-IsEnd (memory s) limit out h =
      let same : drop (length s.events - effective_limit limit (length s.events)) s.events ≡ out =
        cc h in
      let (k, count, start) = effective_limit-IsCount s.events limit in
      (k, count, inl (sym same ∙ ap (λ n. drop n s.events) start))
  list-IsEnd (sqlite d) limit out h = sql-IsEnd d limit out h
  list-IsEnd (postgres d) limit out h = sql-IsEnd d limit out h

  kept_by-same :
      (b : Backend D) (e : Event)
      → kept_by table.kept b e ≡ record e { at = (kept_by table.kept b e).at }
  kept_by-same (memory m) e = refl
  kept_by-same (sqlite d) e = table.kept_same e
  kept_by-same (postgres d) e = table.kept_same e

  -- Where the database keeps its rows as a table does, the store of every backend implements a log: an
  -- append that succeeds puts the event at the end, whole but for a time that the table may keep with
  -- less precision; one that fails changes nothing; and a listing changes nothing and, if it succeeds,
  -- shows the last events, the oldest or the newest of them first: as many as a positive limit says,
  -- or as there are, and for another limit all of them or the last 20.
  pub backend_store-Refines : Refines (backend_store x) (log_of log) (kept_by table.kept)
  unfolding backend_store
  backend_store-Refines = record {
    kept_same = kept_by-same;
    appended = append-appended;
    not_appended = append-not_appended;
    listed = list-listed;
    shown = list-IsEnd;
  }
