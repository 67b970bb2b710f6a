-- ===== src/Gateway/Latency.antt =====
-- internal/infrastructure/gatewayclient/latency_tools.go: the data of the latency tools, and the
-- options of a call. The type of float64 values and its operations are parameters.
pub mod Metrics
pub mod Histogram
pub mod Entries
pub mod Tune
pub mod Fixture
mod Tests
use lumen_mcp_server.Json.{Numbers, Fields}
use lumen_mcp_server.Gateway.Args.{as_string, as_int, as_float, as_bool}
use lumen_mcp_server.Base.{List, false, lt_int, Bool, String, ℤ, ◌||◌, ℕ, pos, if◌then◌else◌}

-- What Go does with float64 values: comparison, arithmetic, `math.Max`, `math.Ceil`, `math.Round` and
-- `math.Inf(1)`. `constant n d` is the value nearest to n / d.
pub record Floats (F : Type 0) : Type 0 where
  pub numbers : Numbers F
  pub constant : ℕ → ℕ → F
  pub infinity : F
  pub lt : F → F → Bool
  pub le : F → F → Bool
  pub same : F → F → Bool
  pub add : F → F → F
  pub mul : F → F → F
  pub div : F → F → F
  pub larger : F → F → F
  pub ceil : F → F
  pub round : F → F

pub record LatencySeriesKey : Type 0 where
  pub route_id : String
  pub upstream_id : String
  pub service_id : String

-- `Buckets` as its entries
pub record HistogramSeries (F : Type 0) : Type 0 where
  pub buckets : List (F × F)
  pub count : F
  pub sum : F

pub record PhaseSeries : Type 0 where
  pub key : LatencySeriesKey
  pub phase : String

pub record SeriesStats (F : Type 0) : Type 0 where
  pub count : F
  pub mean : F
  pub p95 : F
  pub p99 : F

pub record TimeoutRecommendation : Type 0 where
  pub connect : ℤ
  pub send : ℤ
  pub read : ℤ

pub record TuningOptions (F : Type 0) : Type 0 where
  pub route_id : String
  pub upstream_id : String
  pub min_samples : ℤ
  pub quantile : F
  pub safety_factor : F
  pub min_connect_ms : F
  pub min_read_ms : F
  pub max_connect_seconds : ℤ
  pub max_read_seconds : ℤ
  pub include_non_2xx : Bool

-- `if v < 1 { v = 1 }`
abbrev pub at_least_one : ℤ → ℤ
at_least_one v = if lt_int v (pos 1) then pos 1 else v

module _ {F : Type 0} (floats : Floats F) where
  -- a whole number
  abbrev pub whole : ℕ → F
  whole n = floats.constant n 1

  -- `if v < least { v = least }`
  abbrev pub at_least : F → F → F
  at_least least v = if floats.lt v least then least else v

  abbrev pub quantile_or_default : F → F
  quantile_or_default q =
      if floats.le q (whole 0) || floats.lt (whole 1) q then floats.constant 95 100 else q

  unfoldable pub default_tuning_options : Fields F → TuningOptions F
  default_tuning_options args = record {
    route_id = as_string args "route_id";
    upstream_id = as_string args "upstream_id";
    min_samples = at_least_one (as_int floats.numbers args "min_samples" (pos 20));
    quantile =
        quantile_or_default (as_float floats.numbers args "quantile" (floats.constant 95 100));
    safety_factor = at_least (whole 1) (as_float floats.numbers args "safety_factor" (whole 3));
    min_connect_ms =
        at_least (whole 100) (as_float floats.numbers args "min_connect_ms" (whole 300));
    min_read_ms = at_least (whole 300) (as_float floats.numbers args "min_read_ms" (whole 1000));
    max_connect_seconds = at_least_one (as_int floats.numbers args "max_connect_seconds" (pos 10));
    max_read_seconds = at_least_one (as_int floats.numbers args "max_read_seconds" (pos 120));
    include_non_2xx = as_bool args "include_non_2xx" false;
  }
