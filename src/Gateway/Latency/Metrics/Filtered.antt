-- ===== src/Gateway/Latency/Metrics/Filtered.antt =====
-- Which series are read from the metrics.
use lumen_mcp_server.Base.{
  String, false, ◌||◌, Option, none, some, List, [], ◌∷◌, Bool-cases, ◌==◌, trim_space, trim_prefix,
  has_prefix, split, ◌≡◌, ◌≢◌, ◌⊎◌, inl, inr, arith, eq_iff, All,
}
use lumen_mcp_server.Gateway.Latency.{Floats, PhaseSeries, HistogramSeries, TuningOptions}
use lumen_mcp_server.Gateway.Latency.Metrics.{
  Sample, label, skipped, series_of, with_value, with_labels, with_suffix, with_metric, parse_line,
  add_sample, add_line, read_lines, parse_latency_series, split_metric_line, parse_labels,
  same_series, metric_prefix,
}

-- A series that the options ask for: it has a phase, and a route or an upstream, and these are the
-- ones of the filters that are set.
pub record IsWanted {F : Type 0} (opts : TuningOptions F) (s : PhaseSeries) : Type 0 where
  pub phase : s.phase ≢ ""
  pub place : (s.key.route_id ≢ "") ⊎ (s.key.upstream_id ≢ "")
  pub route : (opts.route_id ≡ "") ⊎ (s.key.route_id ≡ opts.route_id)
  pub upstream : (opts.upstream_id ≡ "") ⊎ (s.key.upstream_id ≡ opts.upstream_id)

series_of-IsWanted :
    {F : Type 0} (opts : TuningOptions F) (labels : List (String × String))
    → (label labels "phase" == "") ≡ false
    → skipped opts labels ≡ false
    → IsWanted opts (series_of labels)
unfolding series_of skipped
series_of-IsWanted opts labels named kept = record {
  phase = λ e. cc (named, (eq_iff (label labels "phase") "").1 e);
  place =
      ground (arith, eq_iff (label labels "route_id") "", eq_iff (label labels "upstream_id") "");
  route = ground (arith, eq_iff opts.route_id "", eq_iff (label labels "route_id") opts.route_id);
  upstream =
      ground
        (arith, eq_iff opts.upstream_id "", eq_iff (label labels "upstream_id") opts.upstream_id);
}

module _ {F : Type 0} (floats : Floats F) (opts : TuningOptions F) where
  -- What a line says is about a series that the options ask for.
  abbrev IsWantedSample : Option (Sample F) → Type 0
  IsWantedSample none = Unit {0}
  IsWantedSample (some s) = IsWanted opts s.series

  with_value-IsWanted :
      (suffix : String) (labels : List (String × String)) (value : Option F)
      → IsWanted opts (series_of labels)
      → IsWantedSample (with_value floats suffix labels value)
  unfolding with_value
  with_value-IsWanted suffix labels none w = tt
  with_value-IsWanted suffix labels (some v) w = w

  with_labels-IsWanted :
      (suffix : String) (labels : List (String × String)) (value_raw : String)
      → IsWantedSample (with_labels floats opts suffix labels value_raw)
  unfolding with_labels
  with_labels-IsWanted suffix labels value_raw = elim (Bool-cases (label labels "phase" == "")) [
    | inl blank ↦ rw blank tt
    | inr named ↦ elim (Bool-cases (skipped opts labels)) [
      | inl out ↦ rw (named, out) tt
      | inr kept ↦
          rw (named, kept)
            (with_value-IsWanted suffix labels (floats.numbers.parse_float value_raw)
              (series_of-IsWanted opts labels named kept))
    ]
  ]

  with_suffix-IsWanted :
      (suffix label_part value_raw : String)
      → IsWantedSample (with_suffix floats opts suffix label_part value_raw)
  unfolding with_suffix
  with_suffix-IsWanted suffix label_part value_raw =
      elim (Bool-cases (suffix == "bucket" || (suffix == "sum" || suffix == "count"))) [
        | inl known ↦ rw known (with_labels-IsWanted suffix (parse_labels label_part) value_raw)
        | inr other ↦ rw other tt
      ]

  with_metric-IsWanted :
      (parts : Option (String × String × String)) → IsWantedSample (with_metric floats opts parts)
  unfolding with_metric
  with_metric-IsWanted none = tt
  with_metric-IsWanted (some (metric, label_part, value_raw)) =
      elim (Bool-cases (has_prefix metric metric_prefix)) [
        | inl ours ↦
            rw ours (with_suffix-IsWanted (trim_prefix metric metric_prefix) label_part value_raw)
        | inr other ↦ rw other tt
      ]

  parse_line-IsWanted : (raw : String) → IsWantedSample (parse_line floats opts raw)
  unfolding parse_line
  parse_line-IsWanted raw =
      elim (Bool-cases (trim_space raw == "" || has_prefix (trim_space raw) "#")) [
        | inl comment ↦ rw comment tt
        | inr metric ↦ rw metric (with_metric-IsWanted (split_metric_line (trim_space raw)))
      ]

  -- Every series is one that the options ask for.
  abbrev pub AllWanted : List (PhaseSeries × HistogramSeries F) → Type 0
  AllWanted out = All (λ e. IsWanted opts e.0) out

  add_sample-AllWanted :
      (s : Sample F) (out : List (PhaseSeries × HistogramSeries F))
      → IsWanted opts s.series
      → AllWanted out
      → AllWanted (add_sample floats s out)
  unfolding add_sample
  add_sample-AllWanted s [] w all = (w, tt)
  add_sample-AllWanted s ((k, h) ∷ out) w (old, all) =
      elim (Bool-cases (same_series floats k s.series)) [
        | inl same ↦ rw same (old, all)
        | inr other ↦ rw other (old, add_sample-AllWanted s out w all)
      ]

  add_line-AllWanted :
      (line : Option (Sample F)) (out : List (PhaseSeries × HistogramSeries F))
      → IsWantedSample line
      → AllWanted out
      → AllWanted (add_line floats line out)
  unfolding add_line
  add_line-AllWanted none out w all = all
  add_line-AllWanted (some s) out w all = add_sample-AllWanted s out w all

  read_lines-AllWanted :
      (lines : List String) (out : List (PhaseSeries × HistogramSeries F))
      → AllWanted out
      → AllWanted (read_lines floats opts lines out)
  unfolding read_lines
  read_lines-AllWanted [] out all = all
  read_lines-AllWanted (raw ∷ lines) out all =
      read_lines-AllWanted lines (add_line floats (parse_line floats opts raw) out)
        (add_line-AllWanted (parse_line floats opts raw) out (parse_line-IsWanted raw) all)

  -- Whatever the text of the metrics is, every series that is read from it has a phase, and a route or
  -- an upstream, and these are the ones of the filters that are set.
  pub parse_latency_series-AllWanted :
      (metrics : String) → AllWanted (parse_latency_series floats metrics opts)
  unfolding parse_latency_series
  parse_latency_series-AllWanted metrics = read_lines-AllWanted (split b'\n' metrics) [] tt
