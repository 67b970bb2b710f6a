-- ===== src/Gateway/Fixture.antt =====
-- A concrete environment for tests: numbers, a JSON package and a network that keeps what is sent.
use lumen_mcp_server.Base.{ℕ, String, none, List, [], ◌∷◌, ◌++◌, pos, to_nat, ok}
use lumen_mcp_server.Json.{str, Fields, end, field, Numbers}
use lumen_mcp_server.Gateway.Client.{Client, HttpRequest, JsonCodec, Transport}

abbrev pub floats : Numbers ℕ
floats = record { truncate = pos; of_int = to_nat; parse_float = λ s. none }

abbrev pub json : JsonCodec ℕ
json = record { marshal = λ m. ok "{}"; unmarshal = λ s. ok (field "value" (str s) end) }

abbrev pub net : Transport (List HttpRequest)
net = record { exchange = λ w req. (ok (record { status = 200; content = "{}" }), w ++ req ∷ []) }

abbrev pub client : Client
client = record { base_url = "http://gw"; api_key = "k" }

abbrev pub with_id : String → Fields ℕ
with_id id = field "id" (str id) end
