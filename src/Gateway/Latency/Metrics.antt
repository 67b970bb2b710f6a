-- ===== src/Gateway/Latency/Metrics.antt =====
-- internal/infrastructure/gatewayclient/latency_tools.go: reading the gateway's metrics, which are
-- lines of text, into histograms.
pub mod Filtered
pub mod Labels
use lumen_mcp_server.Json.{Numbers}
use lumen_mcp_server.Gateway.Latency.{
  Floats, LatencySeriesKey, PhaseSeries, HistogramSeries, TuningOptions, whole,
}
use lumen_mcp_server.Base.{
  false, if◌then◌else◌, Bool, List, String, trim_char, fields, assign, cut_last, trim_prefix, none,
  has_prefix, cut_first, some, ◌||◌, not, lookup, split, trim_space, ◌&&◌, Option, [], ◌==◌, ◌∷◌,
}

abbrev first_field : String → String → List String → Option (String × String × String)
first_field metric labels [] = none
first_field metric labels (value ∷ rest) = some (metric, labels, value)

-- what stands behind the opening brace
after_brace : String → Option (String × String) → Option (String × String × String)
after_brace before none = none
after_brace before (some (labels, rest)) =
    if trim_space rest == ""
    then none
    else first_field (trim_space before) labels (fields (trim_space rest))

open_brace : Option (String × String) → Option (String × String × String)
unfolding after_brace
open_brace none = none
open_brace (some (before, after)) =
    if before == "" then none else after_brace before (cut_last b'}' after)

-- the metric, the labels and the value of a line
unfoldable pub split_metric_line : String → Option (String × String × String)
unfolding open_brace
split_metric_line line = open_brace (cut_first b'{' line)

add_pair : List (String × String) → Option (String × String) → List (String × String)
add_pair labels none = labels
add_pair labels (some (key, value)) = assign (trim_space key) (trim_char b'"' value) labels

-- one round of the loop over the items
add_label : List (String × String) → String → List (String × String)
unfolding add_pair
add_label labels item =
    if trim_space item == "" then labels else add_pair labels (cut_first b'=' (trim_space item))

add_labels : List (String × String) → List String → List (String × String)
unfolding add_label
add_labels labels [] = labels
add_labels labels (item ∷ rest) = add_labels (add_label labels item) rest

unfoldable pub parse_labels : String → List (String × String)
unfolding add_labels
parse_labels raw = add_labels [] (split b',' raw)

abbrev pub text_at : Option String → String
text_at none = ""
text_at (some s) = s

-- `labels[key]`
unfoldable pub label : List (String × String) → String → String
label labels key = text_at (lookup key labels)

-- What a line adds to: a bucket with its upper bound, the sum, or the count.
pub data Part (F : Type 0) : Type 0 where
  bucket : F → Part F
  sum count : Part F

-- What one line of the metrics says.
pub record Sample (F : Type 0) : Type 0 where
  pub series : PhaseSeries
  pub part : Part F
  pub value : F

abbrev pub metric_prefix : String
metric_prefix = "lumen_upstream_phase_duration_seconds_"

-- the tests that skip a series
unfoldable pub skipped : {F : Type 0} → TuningOptions F → List (String × String) → Bool
unfolding label
skipped opts labels =
    (not (opts.route_id == "") && not (label labels "route_id" == opts.route_id))
    || ((not (opts.upstream_id == "") && not (label labels "upstream_id" == opts.upstream_id))
        || ((not opts.include_non_2xx && not (has_prefix (label labels "status_class") "2"))
            || (label labels "route_id" == "" && label labels "upstream_id" == "")))

unfoldable pub series_of : List (String × String) → PhaseSeries
unfolding label
series_of labels = record {
  key = record {
    route_id = label labels "route_id";
    upstream_id = label labels "upstream_id";
    service_id = label labels "service_id";
  };
  phase = label labels "phase";
}

module _ {F : Type 0} (floats : Floats F) where
  abbrev bound_or_infinity : Option F → F
  bound_or_infinity none = floats.infinity
  bound_or_infinity (some le) = le

  bound_of : String → F
  bound_of raw =
      if raw == "" || raw == "+Inf"
      then floats.infinity
      else bound_or_infinity (floats.numbers.parse_float raw)

  part_of : String → List (String × String) → Part F
  unfolding bound_of label
  part_of suffix labels =
      if suffix == "bucket"
      then bucket (bound_of (label labels "le"))
      else if suffix == "sum"
      then sum
      else count

  with_value : String → List (String × String) → Option F → Option (Sample F)
  unfolding part_of series_of
  with_value suffix labels none = none
  with_value suffix labels (some value) =
      some (record { series = series_of labels; part = part_of suffix labels; value = value })

  with_labels : TuningOptions F → String → List (String × String) → String → Option (Sample F)
  unfolding with_value label skipped
  with_labels opts suffix labels value_raw =
      if label labels "phase" == ""
      then none
      else if skipped opts labels
      then none
      else with_value suffix labels (floats.numbers.parse_float value_raw)

  with_suffix : TuningOptions F → String → String → String → Option (Sample F)
  unfolding with_labels parse_labels
  with_suffix opts suffix label_part value_raw =
      if suffix == "bucket" || (suffix == "sum" || suffix == "count")
      then with_labels opts suffix (parse_labels label_part) value_raw
      else none

  with_metric : TuningOptions F → Option (String × String × String) → Option (Sample F)
  unfolding with_suffix
  with_metric opts none = none
  with_metric opts (some (metric, label_part, value_raw)) =
      if has_prefix metric metric_prefix
      then with_suffix opts (trim_prefix metric metric_prefix) label_part value_raw
      else none

  -- the body of the loop over the lines, up to the parsed value
  unfoldable pub parse_line : TuningOptions F → String → Option (Sample F)
  unfolding with_metric split_metric_line
  parse_line opts raw =
      if trim_space raw == "" || has_prefix (trim_space raw) "#"
      then none
      else with_metric opts (split_metric_line (trim_space raw))

  -- `Buckets[le] += value`
  add_bucket : F → F → List (F × F) → List (F × F)
  add_bucket le value [] = (le, floats.add (whole floats 0) value) ∷ []
  add_bucket le value ((b, n) ∷ buckets) =
      if floats.same b le
      then (b, floats.add n value) ∷ buckets
      else (b, n) ∷ add_bucket le value buckets

  unfoldable pub add_part : Part F → F → HistogramSeries F → HistogramSeries F
  unfolding add_bucket
  add_part (bucket le) value h = record h { buckets = add_bucket le value h.buckets }
  add_part sum value h = record h { sum = floats.add h.sum value }
  add_part count value h = record h { count = floats.add h.count value }

  abbrev pub empty_histogram : HistogramSeries F
  empty_histogram = record { buckets = []; count = whole floats 0; sum = whole floats 0 }

  unfoldable pub same_series : PhaseSeries → PhaseSeries → Bool
  same_series a b =
      a.key.route_id == b.key.route_id
      && (a.key.upstream_id == b.key.upstream_id
          && (a.key.service_id == b.key.service_id && a.phase == b.phase))

  -- `out[k]`, made if it is missing, and changed
  unfoldable pub add_sample :
      Sample F → List (PhaseSeries × HistogramSeries F) → List (PhaseSeries × HistogramSeries F)
  unfolding add_part same_series
  add_sample s [] = (s.series, add_part s.part s.value empty_histogram) ∷ []
  add_sample s ((k, h) ∷ out) =
      if same_series k s.series
      then (k, add_part s.part s.value h) ∷ out
      else (k, h) ∷ add_sample s out

  add_line :
      Option (Sample F)
      → List (PhaseSeries × HistogramSeries F)
      → List (PhaseSeries × HistogramSeries F)
  unfolding add_sample
  add_line none out = out
  add_line (some s) out = add_sample s out

  pub read_lines :
      TuningOptions F
      → List String
      → List (PhaseSeries × HistogramSeries F)
      → List (PhaseSeries × HistogramSeries F)
  unfolding add_line parse_line
  read_lines opts [] out = out
  read_lines opts (raw ∷ lines) out = read_lines opts lines (add_line (parse_line opts raw) out)

  -- The series with their histograms; `b'\n'` ends a line.
  unfoldable pub parse_latency_series :
      String → TuningOptions F → List (PhaseSeries × HistogramSeries F)
  unfolding read_lines
  parse_latency_series metrics opts = read_lines opts (split b'\n' metrics) []
