-- ===== src/Mcp/Schemas/Tests.antt =====
-- A schema, and the property of schemas for a tool that writes.
use lumen_mcp_server.Base.{ℕ, length, ◌≡◌, refl}
use lumen_mcp_server.Json.{Fields, str, end, field}
use lumen_mcp_server.Gateway.Fixture.{floats}
use lumen_mcp_server.Bootstrap.{catalog}
use lumen_mcp_server.Mcp.Schemas.{rollback_schema, input_schema_for, registered}
use lumen_mcp_server.Mcp.Schemas.Given.{Agrees}
use lumen_mcp_server.Mcp.Schemas.Required.{build_request-Meets}

schema_run : input_schema_for {F = ℕ} "history_rollback" ≡ rollback_schema
unfolding input_schema_for
schema_run = refl

tools_run : length (registered {F = ℕ} catalog) ≡ 23
unfolding registered
tools_run = refl

abbrev no_body : Fields ℕ
no_body = field "id" (str "1") end

build_request-Meets_example : Agrees floats no_body "put_route"
build_request-Meets_example = build_request-Meets floats no_body "put_route" refl
