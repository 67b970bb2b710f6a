-- ===== src/Gateway/Latency/Tests.antt =====
-- Runs of the latency tools, and their properties at concrete inputs.
use lumen_mcp_server.Base.{
  eq_iff, IsNot, ap, false, ◌≢◌, is_space, ◌==◌, some, inl, refl, pos, [], String, List, length,
  ◌≡◌, All, true, ℕ, ◌∷◌, lookup,
}
use lumen_mcp_server.Json.{str, obj, Fields, end, field}
use lumen_mcp_server.Gateway.Args.{as_bool}
use lumen_mcp_server.Gateway.Latency.{PhaseSeries, HistogramSeries, default_tuning_options}
use lumen_mcp_server.Gateway.Latency.Fixture.{
  floats, metrics_text, json, net, client, quote, wet, options, constants, below-IsOrder,
  sorts_before-IsOrder,
}
use lumen_mcp_server.Gateway.Latency.Metrics.{parse_labels, parse_latency_series}
use lumen_mcp_server.Gateway.Latency.Metrics.Filtered.{AllWanted, parse_latency_series-AllWanted}
use lumen_mcp_server.Gateway.Latency.Metrics.Labels.{IsLabel, render, parse_labels-render}
use lumen_mcp_server.Gateway.Latency.Histogram.{
  summarize_histogram, recommend_timeouts, target_of, histogram_quantile,
}
use lumen_mcp_server.Gateway.Latency.Histogram.Ranges.{
  InRange, Keeps, IsAllowed, default_tuning_options-InRange, recommend_timeouts-IsAllowed,
}
use lumen_mcp_server.Gateway.Latency.Histogram.Quantile.{IsLeast, histogram_quantile-IsLeast}
use lumen_mcp_server.Gateway.Latency.Entries.{build_latency_entries, choose_tuning_target}
use lumen_mcp_server.Gateway.Latency.Entries.Chosen.{Chosen, choose_tuning_target-Chosen}
use lumen_mcp_server.Gateway.Latency.Tune.{tune_upstream_timeout}
use lumen_mcp_server.Gateway.Latency.Tune.Requests.{recorded, Requests}
use lumen_mcp_server.Gateway.Latency.Tune.Applied.{tune_upstream_timeout-Requests}

abbrev total : PhaseSeries
total = record {
  key = record { route_id = "r"; upstream_id = "u"; service_id = "" };
  phase = "total";
}

abbrev hist : HistogramSeries ℕ
hist = record { buckets = (200, 3000) ∷ []; count = 3000; sum = 0 }

abbrev series : List (PhaseSeries × HistogramSeries ℕ)
series = (total, hist) ∷ []

series_run : parse_latency_series floats metrics_text options ≡ series
unfolding parse_latency_series lumen_mcp_server.Base.split lumen_mcp_server.Base.trim_space
    lumen_mcp_server.Base.has_prefix lumen_mcp_server.Base.cut_first lumen_mcp_server.Base.cut_last
    lumen_mcp_server.Base.fields lumen_mcp_server.Base.trim_prefix lookup
    lumen_mcp_server.Base.assign lumen_mcp_server.Base.trim_char default_tuning_options
    lumen_mcp_server.Gateway.Args.as_string lumen_mcp_server.Json.get as_bool
    lumen_mcp_server.Base.atoi
series_run = refl

-- two seconds, three times
timeouts_run :
    recommend_timeouts floats
      (summarize_histogram floats hist)
      (summarize_histogram floats hist)
      options
    ≡ record { connect = pos 6; send = pos 6; read = pos 6 }
unfolding recommend_timeouts summarize_histogram lumen_mcp_server.Base.sort_by
    default_tuning_options lumen_mcp_server.Gateway.Args.as_float lumen_mcp_server.Json.get
    lumen_mcp_server.Gateway.Args.as_int
timeouts_run = refl

parse_latency_series-AllWanted_example :
    AllWanted floats options (parse_latency_series floats metrics_text options)
parse_latency_series-AllWanted_example = parse_latency_series-AllWanted floats options metrics_text

abbrev labels : List (String × String)
labels = ("a", "1") ∷ ("b", "2 3") ∷ []

named : (key : String) → (key == "") ≡ false → key ≢ ""
named key h e = cc (h, (eq_iff key "").1 e)

labels-All : All IsLabel labels
unfolding is_space
labels-All = (
  (named "a" refl, ((refl, refl, refl), tt), ((refl, refl), tt)),
  (
    (named "b" refl, ((refl, refl, refl), tt), ((refl, refl), ((refl, refl), ((refl, refl), tt)))),
    tt,
  ),
)

labels_run : lookup "b" (parse_labels (render labels)) ≡ some "2 3"
unfolding lookup parse_labels lumen_mcp_server.Base.split render lumen_mcp_server.Base.trim_space
    lumen_mcp_server.Base.cut_first lumen_mcp_server.Base.assign lumen_mcp_server.Base.trim_char
labels_run = refl

parse_labels-render_example : lookup "b" (parse_labels (render labels)) ≡ lookup "b" labels
unfolding lookup
parse_labels-render_example = parse_labels-render labels "b" labels-All (refl, (refl, tt))

-- One argument in its range, and one below it.
abbrev narrow : Fields ℕ
narrow = field "min_connect_ms" (str "500") (field "min_read_ms" (str "7") end)

narrow_kept : (default_tuning_options floats narrow).min_connect_ms ≡ 50000
unfolding default_tuning_options lumen_mcp_server.Gateway.Args.as_float lumen_mcp_server.Json.get
    lumen_mcp_server.Base.atoi lumen_mcp_server.Base.trim_space
narrow_kept = refl

narrow_raised : (default_tuning_options floats narrow).min_read_ms ≡ 30000
unfolding default_tuning_options lumen_mcp_server.Gateway.Args.as_float lumen_mcp_server.Json.get
    lumen_mcp_server.Base.atoi lumen_mcp_server.Base.trim_space
narrow_raised = refl

default_tuning_options-InRange_example :
    InRange floats (default_tuning_options floats narrow)
    × Keeps floats narrow (default_tuning_options floats narrow)
default_tuning_options-InRange_example = default_tuning_options-InRange floats narrow constants

recommend_timeouts-IsAllowed_example : IsAllowed floats options (
    recommend_timeouts floats
      (summarize_histogram floats hist)
      (summarize_histogram floats hist)
      options)
recommend_timeouts-IsAllowed_example =
    recommend_timeouts-IsAllowed floats (summarize_histogram floats hist)
      (summarize_histogram floats hist) end

abbrev two_buckets : List (ℕ × ℕ)
two_buckets = (200, 3000) ∷ (100, 1000) ∷ []

histogram_quantile-IsLeast_example :
    IsLeast floats
      (λ n. Unit)
      sorts_before-IsOrder
      two_buckets
      (target_of floats 3000 95)
      (200 ∷ 100 ∷ [])
      (histogram_quantile floats two_buckets 3000 95)
unfolding target_of lumen_mcp_server.Gateway.Latency.Histogram.bucket_at
histogram_quantile-IsLeast_example =
    histogram_quantile-IsLeast floats (λ n. Unit) sorts_before-IsOrder two_buckets 3000 95
      (tt, (tt, tt)) refl (inl refl)

abbrev entries : List (Fields ℕ)
entries = build_latency_entries floats (λ g. g) series options

entries_run : length entries ≡ 1
unfolding build_latency_entries lumen_mcp_server.Base.sort_by default_tuning_options
    lumen_mcp_server.Gateway.Args.as_int lumen_mcp_server.Json.get lookup
entries_run = refl

any_number : (xs : List (Fields ℕ)) → All (λ x. Unit {0}) xs
any_number [] = tt
any_number (x ∷ xs) = (tt, any_number xs)

some_entry : entries ≢ []
some_entry e = cc (entries_run, ap length e)

choose_tuning_target-Chosen_example :
    Chosen floats
      (λ n. Unit)
      below-IsOrder
      quote
      options
      entries
      (choose_tuning_target floats quote entries options)
choose_tuning_target-Chosen_example =
    choose_tuning_target-Chosen floats (λ n. Unit) below-IsOrder quote (λ g. g) series options
      some_entry (any_number _)

tune_upstream_timeout-Requests_example :
    let ran = tune_upstream_timeout floats json (recorded net) quote (λ g. g) client (tt, []) wet in
    Requests floats json client
      (default_tuning_options floats wet)
      (as_bool wet "dry_run" true)
      ran.0
      ran.1.1
tune_upstream_timeout-Requests_example =
    tune_upstream_timeout-Requests floats json net quote (λ g. g) client wet tt
