-- ===== src/Ports.antt =====
-- internal/application/ports/ports.go: the interfaces between the application and its adapters.
-- Each is a record of operations on the adapter's own state; a state may hold what the adapter
-- reads from its environment, such as a clock or the answers of a server.
use lumen_mcp_server.Base.{String, Option, List, ℤ, Result}
use lumen_mcp_server.Domain.{Event, Definition, Claims}

pub record TokenVerifier (V : Type 0) : Type 0 where
  pub verify_bearer : V → String → Result String Claims × V

pub record GatewayAdminClient (G Args Payload : Type 0) : Type 0 where
  pub invoke_tool : G → String → Args → Result String Payload × G

pub record ToolCatalog (C : Type 0) : Type 0 where
  pub list : C → Result String (List Definition)

-- `append` returns the error, if there is one, and the store. A listing that panics gives `none`.
pub record AuditStore (A : Type 0) : Type 0 where
  pub append : A → Event → Option String × A
  pub list : A → ℤ → Option (Result String (List Event)) × A
