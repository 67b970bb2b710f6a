-- ===== src/Gateway/Request/Tests.antt =====
-- Runs of `buildRequest`, and the properties at concrete inputs.
use lumen_mcp_server.Base.{ℕ, String, ◌≡◌, refl, ok, err, itoa, trim_space, trim_prefix, pos}
use lumen_mcp_server.Json.{end, field, str, int, arr, cons, nil, get, items}
use lumen_mcp_server.Gateway.Fixture.{floats, with_id}
use lumen_mcp_server.Gateway.Url.{
  path_escape, query_escape, encode, set_value, add_value, utf8, hex_digit,
}
use lumen_mcp_server.Gateway.Args.{as_string, as_string_slice, as_int}
use lumen_mcp_server.Gateway.Request.{build_request, get_request, kind_of}
use lumen_mcp_server.Gateway.Request.Segments.{Addresses, Carries, build_request-Addresses}
use lumen_mcp_server.Gateway.Request.Groups.{verb}
use lumen_mcp_server.Gateway.Request.Totality.{Rejected, build_request-Rejected}

get_one :
    build_request floats "get_route" (with_id " a/b ")
    ≡ ok (get_request floats "/apisix/admin/routes/a%2Fb")
unfolding build_request kind_of get as_string trim_space path_escape utf8 hex_digit
    lumen_mcp_server.Gateway.Url.kept_in_path
get_one = refl

list_page :
    build_request floats "list_routes"
      (field "page" (int (pos 2)) (field "keyword" (str "x y") end))
    ≡ ok (get_request floats "/apisix/admin/routes?keyword=x+y&page=2")
unfolding build_request kind_of get as_string as_int trim_space trim_prefix query_escape encode
    set_value utf8 hex_digit itoa lumen_mcp_server.Gateway.Url.unreserved
list_page = refl

export_two :
    build_request floats "export_bundle"
      (field "kinds" (arr (cons (str "routes") (cons (str " ") (cons (str "a&b") nil)))) end)
    ≡ ok (get_request floats "/apisix/admin/control/exports?kind=routes&kind=a%26b")
unfolding build_request get items as_string as_string_slice trim_space query_escape encode set_value
    add_value utf8 hex_digit lumen_mcp_server.Gateway.Url.unreserved
export_two = refl

no_such_tool : build_request floats "drop_route" end ≡ err "unsupported tool: drop_route"
unfolding build_request
no_such_tool = refl

build_request-Addresses_example :
    Addresses floats "get_route" (with_id " a/b ") "/apisix/admin/routes/a%2Fb"
    × ◌≡◌ {A = String} "GET" (verb "get_route")
    × Carries floats "get_route" (with_id " a/b ") (get_request floats "/apisix/admin/routes/a%2Fb")
build_request-Addresses_example =
    build_request-Addresses floats "get_route" (with_id " a/b ")
      (get_request floats "/apisix/admin/routes/a%2Fb") refl get_one

build_request-Rejected_example : Rejected {F = ℕ} "drop_route" end "unsupported tool: drop_route"
build_request-Rejected_example =
    build_request-Rejected floats "drop_route" end "unsupported tool: drop_route" no_such_tool
