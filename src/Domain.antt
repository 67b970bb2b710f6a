-- ===== src/Domain.antt =====
-- internal/domain and internal/application/ports/ports.go: the values that the components exchange.
-- A time is a number of nanoseconds.
use lumen_mcp_server.Base.{ℕ, String, Bool, List}

pub record Event : Type 0 where
  pub at : ℕ
  pub actor : String
  pub client_id : String
  pub tool : String
  pub resource_kind : String
  pub resource_id : String
  pub result : String
  pub trace_id : String
  pub message : String

pub record Decision : Type 0 where
  pub allowed : Bool
  pub reason : String

-- tool.Definition
pub record Definition : Type 0 where
  pub name : String
  pub description : String
  pub scope : String

pub record Claims : Type 0 where
  pub subject : String
  pub client : String
  pub scopes : List String
