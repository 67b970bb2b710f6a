-- ===== src/Audit/Memory.antt =====
-- internal/infrastructure/auditstore/store.go: the store in memory. Its mutex makes each operation
-- one step.
pub mod Laws
use lumen_mcp_server.Base.{
  some, ℕ, zero, suc, ◌+◌, ◌-◌, ◌≤◌, ◌≡◌, refl, String, Bool, ◌||◌, Option, none, List, [], ◌∷◌,
  ◌++◌, ℤ, pos, lt_int, not_pos, to_nat, Result, ok, length, drop, take, ltb, leb, if◌then◌else◌,
  arith, length-append,
}
use lumen_mcp_server.Domain.{Event}
use lumen_mcp_server.Ports.{AuditStore}

pub record MemoryStore : Type 0 where
  pub events : List Event

abbrev pub new_memory : MemoryStore
new_memory = record { events = [] }

unfoldable pub append : MemoryStore → Event → Option String × MemoryStore
append s event = (none, record { events = s.events ++ event ∷ [] })

-- `limit <= 0 || limit > len(s.events)`
abbrev pub effective_limit : ℤ → ℕ → ℕ
effective_limit limit n = if not_pos limit || lt_int (pos n) limit then n else to_nat limit

unfoldable pub list : MemoryStore → ℤ → Result String (List Event) × MemoryStore
list s limit = let n = length s.events in (ok (drop (n - effective_limit limit n) s.events), s)

unfoldable pub memory_store : AuditStore MemoryStore
memory_store = record {
  append = append;
  list = λ s limit. let (listed, s') = list s limit in (some listed, s');
}
