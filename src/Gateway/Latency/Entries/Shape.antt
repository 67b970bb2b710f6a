-- ===== src/Gateway/Latency/Entries/Shape.antt =====
-- What every entry holds.
use lumen_mcp_server.Base.{
  none, [], ◌∷◌, refl, Option, [], lookup, All, String, some, ◌≡◌, List, sort_by-All,
}
use lumen_mcp_server.Json.{obj, Fields, get}
use lumen_mcp_server.Gateway.Latency.{
  Floats, LatencySeriesKey, PhaseSeries, HistogramSeries, SeriesStats, TimeoutRecommendation,
  TuningOptions, default_tuning_options,
}
use lumen_mcp_server.Gateway.Latency.Histogram.{recommend_timeouts}
use lumen_mcp_server.Gateway.Latency.Histogram.Ranges.{IsAllowed, recommend_timeouts-IsAllowed}
use lumen_mcp_server.Gateway.Latency.Entries.{
  Group, aggregate, entry_of, with_total, entries_of, comes_before, build_latency_entries,
  timeout_fields, stats_or_zero,
}

module _ {F : Type 0} (floats : Floats F) (args : Fields F) where
  abbrev pub options : TuningOptions F
  options = default_tuning_options floats args

  -- The entry recommends timeouts that may be applied.
  pub record HasTimeouts (entry : Fields F) : Type 0 where
    pub timeouts : TimeoutRecommendation
    pub stored : get "recommended_timeout" entry ≡ some (obj (timeout_fields timeouts))
    pub allowed : IsAllowed floats options timeouts

  entry_of-HasTimeouts :
      (key : LatencySeriesKey) (phases : List (String × SeriesStats F)) (total : SeriesStats F)
      → HasTimeouts (entry_of floats options key phases total)
  unfolding entry_of get
  entry_of-HasTimeouts key phases total = record {
    timeouts =
        recommend_timeouts floats (stats_or_zero floats (lookup "connect" phases)) total options;
    stored = refl;
    allowed =
        recommend_timeouts-IsAllowed floats (stats_or_zero floats (lookup "connect" phases)) total
          args;
  }

  with_total-HasTimeouts :
      (key : LatencySeriesKey) (phases : List (String × SeriesStats F))
      (total : Option (SeriesStats F)) (entries : List (Fields F))
      → All HasTimeouts entries
      → All HasTimeouts (with_total floats options key phases total entries)
  unfolding with_total
  with_total-HasTimeouts key phases none entries all = all
  with_total-HasTimeouts key phases (some total) entries all =
      (entry_of-HasTimeouts key phases total, all)

  entries_of-HasTimeouts :
      (groups : List (Group F)) → All HasTimeouts (entries_of floats options groups)
  unfolding entries_of
  entries_of-HasTimeouts [] = tt
  entries_of-HasTimeouts ((key, phases) ∷ groups) =
      with_total-HasTimeouts key phases (lookup "total" phases) (entries_of floats options groups)
        (entries_of-HasTimeouts groups)

  -- Every entry of a call recommends timeouts that may be applied under the call's options.
  pub build_latency_entries-HasTimeouts :
      (order : List (Group F) → List (Group F)) (series : List (PhaseSeries × HistogramSeries F))
      → All HasTimeouts (build_latency_entries floats order series options)
  unfolding build_latency_entries
  build_latency_entries-HasTimeouts order series =
      let groups = order (aggregate floats options series []) in
      sort_by-All (comes_before floats) HasTimeouts (entries_of floats options groups)
        (entries_of-HasTimeouts groups)
