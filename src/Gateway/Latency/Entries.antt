-- ===== src/Gateway/Latency/Entries.antt =====
-- internal/infrastructure/gatewayclient/latency_tools.go: the entries that the latency tools report,
-- in falling order of their 95th percentile, and the choice of the one to tune. Go's iteration over
-- the map of groups has no fixed order: it is an argument, which rearranges the groups.
pub mod Chosen
pub mod Shape
use lumen_mcp_server.Base.{
  sort_by, ℕ, zero, suc, ◌+◌, ◌-◌, ◌≤◌, ◌<◌, String, Bool, true, false, not, ◌&&◌, ◌||◌, Option,
  none, some, List, [], ◌∷◌, ◌++◌, map, length, ℤ, pos, negsuc, lt_int, not_pos, to_nat, Result, ok,
  err, map_err, Result-cases, Option-cases, Bool-cases, ltb, leb, eqb, if◌then◌else◌, ◌==◌, ◌<>◌,
  lookup, assign, itoa, trim_space, trim_slashes, trim_prefix, has_prefix, split, fields, ◌≡◌, ◌≢◌,
  ◌↔◌, ◌⊎◌, inl, inr, refl, sym, ap, ◌∙◌, arith, eq_iff, All, Any, any,
}
use lumen_mcp_server.Json.{Value, str, int, float64, obj, Fields, end, field, Numbers, get}
use lumen_mcp_server.Gateway.Args.{as_string, as_float}
use lumen_mcp_server.Gateway.Latency.{
  Floats, LatencySeriesKey, PhaseSeries, HistogramSeries, SeriesStats, TimeoutRecommendation,
  TuningOptions, whole,
}
use lumen_mcp_server.Gateway.Latency.Histogram.{summarize_histogram, recommend_timeouts}

abbrev pub object_or_empty : {F : Type 0} → Option (Value F) → Fields F
object_or_empty (some (obj m)) = m
object_or_empty v = end

unfoldable pub as_map_must : {F : Type 0} → Fields F → String → Fields F
as_map_must m key = object_or_empty (get key m)

-- The phases of one series, with their summaries.
abbrev pub Group : Type 0 → Type 0
Group F = LatencySeriesKey × List (String × SeriesStats F)

unfoldable pub same_key : LatencySeriesKey → LatencySeriesKey → Bool
same_key a b =
    a.route_id == b.route_id && (a.upstream_id == b.upstream_id && a.service_id == b.service_id)

-- `aggregateByKey[key][phase] = stats`, the inner map made if it is missing
unfoldable pub add_phase :
    {F : Type 0} → LatencySeriesKey → String → SeriesStats F → List (Group F) → List (Group F)
unfolding same_key assign
add_phase key phase stats [] = (key, assign phase stats []) ∷ []
add_phase key phase stats ((k, phases) ∷ groups) =
    if same_key k key
    then (k, assign phase stats phases) ∷ groups
    else (k, phases) ∷ add_phase key phase stats groups

abbrev pub timeout_fields : {F : Type 0} → TimeoutRecommendation → Fields F
timeout_fields t =
    field "connect" (int t.connect) (field "send" (int t.send) (field "read" (int t.read) end))

module _ {F : Type 0} (floats : Floats F) where
  -- the loop over the series
  unfoldable pub aggregate :
      TuningOptions F → List (PhaseSeries × HistogramSeries F) → List (Group F) → List (Group F)
  unfolding add_phase
  aggregate opts [] groups = groups
  aggregate opts ((series, hist) ∷ rest) groups = aggregate opts rest (
      if floats.lt hist.count (floats.numbers.of_int opts.min_samples)
      then groups
      else add_phase series.key series.phase (summarize_histogram floats hist) groups)

  unfoldable pub round2 : F → F
  round2 v = floats.div (floats.round (floats.mul v (whole floats 100))) (whole floats 100)

  abbrev pub milliseconds : F → Value F
  milliseconds v = float64 (round2 (floats.mul v (whole floats 1000)))

  -- the numbers of one phase, and what follows them
  abbrev pub stats_fields : SeriesStats F → Fields F → Fields F
  stats_fields st rest = field "samples" (int (floats.numbers.truncate st.count)) (
      field "mean_ms" (milliseconds st.mean)
        (field "p95_ms" (milliseconds st.p95) (field "p99_ms" (milliseconds st.p99) rest)))

  phase_fields : List (String × SeriesStats F) → Fields F
  phase_fields [] = end
  phase_fields ((phase, st) ∷ phases) =
      field phase (obj (stats_fields st end)) (phase_fields phases)

  abbrev pub zero_stats : SeriesStats F
  zero_stats = record {
    count = whole floats 0;
    mean = whole floats 0;
    p95 = whole floats 0;
    p99 = whole floats 0;
  }

  -- the value of a missing key is the zero value
  abbrev pub stats_or_zero : Option (SeriesStats F) → SeriesStats F
  stats_or_zero none = zero_stats
  stats_or_zero (some st) = st

  unfoldable pub entry_of :
      TuningOptions F → LatencySeriesKey → List (String × SeriesStats F) → SeriesStats F → Fields F
  unfolding phase_fields recommend_timeouts
  entry_of opts key phases total = field "route_id" (str key.route_id) (
      field "upstream_id" (str key.upstream_id) (
        field "service_id" (str key.service_id) (
          field "latency"
            (obj (stats_fields total (field "phases" (obj (phase_fields phases)) end)))
            (field "recommended_timeout"
              (obj (
                timeout_fields
                  (recommend_timeouts floats (stats_or_zero (lookup "connect" phases)) total opts)))
              end))))

  with_total :
      TuningOptions F
      → LatencySeriesKey
      → List (String × SeriesStats F)
      → Option (SeriesStats F)
      → List (Fields F)
      → List (Fields F)
  unfolding entry_of
  with_total opts key phases none entries = entries
  with_total opts key phases (some total) entries = entry_of opts key phases total ∷ entries

  unfoldable pub entries_of : TuningOptions F → List (Group F) → List (Fields F)
  unfolding with_total
  entries_of opts [] = []
  entries_of opts ((key, phases) ∷ groups) =
      with_total opts key phases (lookup "total" phases) (entries_of opts groups)

  -- the number that the entries are sorted by
  unfoldable pub p95_of : Fields F → F
  unfolding as_map_must
  p95_of entry = as_float floats.numbers (as_map_must entry "latency") "p95_ms" (whole floats 0)

  abbrev pub comes_before : Fields F → Fields F → Bool
  comes_before a b = floats.lt (p95_of b) (p95_of a)

  unfoldable pub build_latency_entries :
      (List (Group F) → List (Group F))
      → List (PhaseSeries × HistogramSeries F)
      → TuningOptions F
      → List (Fields F)
  unfolding aggregate entries_of
  build_latency_entries order series opts =
      sort_by comes_before (entries_of opts (order (aggregate opts series [])))

  -- the two tests of the loop
  unfoldable pub rejects : TuningOptions F → Fields F → Bool
  rejects opts entry =
      (not (opts.route_id == "") && not (as_string entry "route_id" == opts.route_id))
      || (not (opts.upstream_id == "") && not (as_string entry "upstream_id" == opts.upstream_id))

  find_target : TuningOptions F → List (Fields F) → Option (Fields F)
  unfolding rejects
  find_target opts [] = none
  find_target opts (entry ∷ entries) =
      let rest = find_target opts entries in if rejects opts entry then rest else some entry

  module _ (quote : String → String) where
    abbrev pub head_entry : List (Fields F) → Option (Result String (Fields F))
    head_entry [] = none
    head_entry (entry ∷ entries) = some (ok entry)

    -- What follows the loop; `entries[0]` of no entries panics, which is `none`.
    after_loop :
        TuningOptions F → List (Fields F) → Option (Fields F) → Option (Result String (Fields F))
    after_loop opts entries (some entry) = some (ok entry)
    after_loop opts entries none =
        if not (opts.route_id == "") || not (opts.upstream_id == "")
        then some (
            err (
              "no latency series matched route_id="
              <> (quote opts.route_id <> (" upstream_id=" <> quote opts.upstream_id))))
        else head_entry entries

    unfoldable pub choose_tuning_target :
        List (Fields F) → TuningOptions F → Option (Result String (Fields F))
    unfolding find_target after_loop
    choose_tuning_target entries opts = after_loop opts entries (find_target opts entries)
