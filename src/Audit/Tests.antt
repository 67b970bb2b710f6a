-- ===== src/Audit/Tests.antt =====
-- Listings of both stores, and the properties at concrete inputs.
use lumen_mcp_server.Base.{
  inl, some, ltb, arith, ℕ, ◌≡◌, ◌↔◌, refl, none, List, [], ◌∷◌, ◌++◌, map, reverse, take, pos, ok,
}
use lumen_mcp_server.Domain.{Event}
use lumen_mcp_server.Audit.Memory
use lumen_mcp_server.Audit.Memory.{MemoryStore, new_memory}
use lumen_mcp_server.Audit.Memory.Laws.{IsRecent, list-IsRecent, list-append}
use lumen_mcp_server.Audit.Sql
use lumen_mcp_server.Audit.Sql.{Rows, Database, IsTable, sql_limit}
use lumen_mcp_server.Audit.Sql.Laws.{Listed, Panics, list-ok_iff, list-eq-reverse}
use lumen_mcp_server.Audit.Backend.{Driver, memory, new_audit_store, new_audit_store}

abbrev at_time : ℕ → Event
at_time n = record {
  at = n;
  actor = "";
  client_id = "";
  tool = "";
  resource_kind = "";
  resource_id = "";
  result = "allow";
  trace_id = "";
  message = "";
}

abbrev log : List Event
log = at_time 1 ∷ at_time 2 ∷ at_time 3 ∷ []

abbrev store : MemoryStore
store = record { events = log }

last_two : Memory.list store (pos 2) ≡ (ok (at_time 2 ∷ at_time 3 ∷ []), store)
unfolding Memory.list
last_two = refl

list-IsRecent_example :
    (out : List Event) × (Memory.list store (pos 2) ≡ (ok out, store)) × IsRecent log (pos 2) out
list-IsRecent_example = list-IsRecent store (pos 2)

list-append_example :
    (Memory.list (Memory.append store (at_time 4)).1 (pos 3)).0
    ≡ ok (at_time 2 ∷ at_time 3 ∷ at_time 4 ∷ [])
list-append_example = list-append store (at_time 4) 1 (at_time 2 ∷ at_time 3 ∷ []) last_two

-- A database that keeps its rows in a list.
abbrev rows : Database (List Event)
rows = record {
  insert_row = λ d e. (none, d ++ e ∷ []);
  select_rows = λ d n. (ok (record { scans = map ok (take n (reverse d)); failure = none }), d);
  can_make = λ n. ltb n 1000000;
}

selected_rows :
    (d : List Event) (n : ℕ) (r : Rows)
    → (rows.select_rows d n).0 ≡ ok r
    → r.scans ≡ map ok (take n (reverse d))
selected_rows d n r h = ground arith

rows-IsTable : IsTable rows (λ d. d)
rows-IsTable = record {
  kept = λ e. e;
  kept_same = λ e. refl;
  inserted = λ d e h. refl;
  not_inserted = λ d e m h. cc;
  selected = λ d n r h k. selected_rows d n r h;
  unchanged = λ d n. refl;
}

newest_two : (Sql.list rows log (pos 2)).0 ≡ some (ok (at_time 3 ∷ at_time 2 ∷ []))
unfolding Sql.list
newest_two = refl

list-ok_iff_example :
    ((out : List Event)
      → ((Sql.list rows log (pos 2)).0 ≡ some (ok out))
        ↔ Listed rows (λ d. d) rows-IsTable log 2 out)
    × (((Sql.list rows log (pos 2)).0 ≡ none) ↔ Panics rows (λ d. d) rows-IsTable log 2)
    × ((Sql.list rows log (pos 2)).1 ≡ log)
list-ok_iff_example = list-ok_iff rows (λ d. d) rows-IsTable log (pos 2) 2 (inl (refl, refl))

too_many : (Sql.list rows log (pos 1000000)).0 ≡ none
unfolding Sql.list
too_many = refl

list-eq-reverse_example : (Memory.list store (pos 2)).0 ≡ ok (reverse (at_time 3 ∷ at_time 2 ∷ []))
list-eq-reverse_example =
    list-eq-reverse rows (λ d. d) rows-IsTable log 1 (at_time 3 ∷ at_time 2 ∷ []) newest_two

abbrev driver : Driver ℕ
driver = record { open_handle = λ s. ok 0; ping = λ d. none; init_schema = λ d. none }

backend_run : new_audit_store driver driver "stdout" "a" "b" ≡ ok (memory new_memory)
unfolding new_audit_store
backend_run = refl
