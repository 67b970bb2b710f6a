-- ===== src/Gateway/Latency/Fixture.antt =====
-- A concrete environment for tests of the latency tools: floats as whole numbers of hundredths, and a
-- gateway with one upstream and its metrics.
use Prim.Native.Nat.{◌*◌, ◌/◌}
use lumen_mcp_server.Base.{
  IsOrder, ℕ, ◌+◌, String, Bool, true, false, Option, none, some, ℤ, pos, to_nat, ok, ltb, leb, eqb,
  if◌then◌else◌, ◌==◌, ◌≡◌, refl, arith, atoi,
}
use lumen_mcp_server.Json.{str, obj, Fields, end, field, Numbers}
use lumen_mcp_server.Gateway.Client.{Client, HttpResponse, JsonCodec, Transport}
use lumen_mcp_server.Gateway.Latency.{Floats, TuningOptions, default_tuning_options}
use lumen_mcp_server.Gateway.Latency.Histogram.{sorts_before}
use lumen_mcp_server.Gateway.Latency.Histogram.Ranges.{HasConstants}

abbrev hundredths : Option ℤ → Option ℕ
hundredths none = none
hundredths (some v) = some (to_nat v * 100)

abbrev numbers : Numbers ℕ
numbers = record {
  truncate = λ n. pos (n / 100);
  of_int = λ v. to_nat v * 100;
  parse_float = λ s. hundredths (atoi s);
}

abbrev pub floats : Floats ℕ
floats = record {
  numbers = numbers;
  constant = λ n d. (n * 100) / d;
  infinity = 100000000000;
  lt = ltb;
  le = leb;
  same = eqb;
  add = λ a b. a + b;
  mul = λ a b. (a * b) / 100;
  div = λ a b. (a * 100) / b;
  larger = λ a b. if ltb a b then b else a;
  ceil = λ a. ((a + 99) / 100) * 100;
  round = λ a. ((a + 50) / 100) * 100;
}

abbrev pub metrics_text : String
metrics_text =
    "# HELP latency\nlumen_upstream_phase_duration_seconds_bucket{route_id=\"r\",upstream_id=\"u\",phase=\"total\",status_class=\"2xx\",le=\"2\"} 30\nlumen_upstream_phase_duration_seconds_count{route_id=\"r\",upstream_id=\"u\",phase=\"total\",status_class=\"2xx\"} 30\n"

abbrev pub upstream : Fields ℕ
upstream = field "value" (obj (field "name" (str "a") end)) end

abbrev pub json : JsonCodec ℕ
json = record { marshal = λ m. ok "{}"; unmarshal = λ s. ok upstream }

abbrev answer : Bool → HttpResponse
answer true = record { status = 200; content = metrics_text }
answer false = record { status = 200; content = "{}" }

-- The metrics are the answer to a request that takes any text.
abbrev pub net : Transport Unit
net = record { exchange = λ w req. (ok (answer (req.accept == "text/plain")), w) }

abbrev pub client : Client
client = record { base_url = "http://gw"; api_key = "k" }

abbrev pub quote : String → String
quote s = s

abbrev pub wet : Fields ℕ
wet = field "dry_run" (str "false") end

abbrev pub options : TuningOptions ℕ
options = default_tuning_options floats end

above_or_equal : (a b : ℕ) → ltb a b ≡ false → leb b a ≡ true
above_or_equal a b h = ground arith

above : (a b : ℕ) → leb a b ≡ false → ltb b a ≡ true
above a b h = ground arith

le_not_lt : (a b : ℕ) → leb a b ≡ true → ltb b a ≡ false
le_not_lt a b h = ground arith

lt_not_le : (a b : ℕ) → ltb a b ≡ true → leb b a ≡ false
lt_not_le a b h = ground arith

le_self : (n : ℕ) → leb n n ≡ true
le_self n = ground arith

same_self : (n : ℕ) → eqb n n ≡ true
same_self n = ground arith

pub constants : HasConstants floats
constants = record {
  below_or_not = λ a b na nb h. above_or_equal a b h;
  above_or_not = λ a b na nb h. above a b h;
  le_not_lt = λ a b h. le_not_lt a b h;
  lt_not_le = λ a b h. lt_not_le a b h;
  le_self = λ n. le_self ((n * 100) / 1);
  no_nan = λ n. same_self ((n * 100) / 1);
  default_pos = refl;
  default_le = refl;
}

pub below-IsOrder : IsOrder ltb (λ n. Unit)
below-IsOrder = record {
  asym = λ a b ga gb h. ground arith;
  trans = λ a b c ga gb gc h k. ground arith;
}

pub sorts_before-IsOrder : IsOrder (sorts_before floats) (λ n. Unit)
sorts_before-IsOrder = record {
  asym = λ a b ga gb h. ground arith;
  trans = λ a b c ga gb gc h k. ground arith;
}
