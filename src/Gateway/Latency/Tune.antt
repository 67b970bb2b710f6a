-- ===== src/Gateway/Latency/Tune.antt =====
-- internal/infrastructure/gatewayclient/latency_tools.go: the two latency tools. The first reports the
-- entries; the second applies the recommended timeouts of one entry to its upstream.
pub mod Requests
pub mod Applied
use lumen_mcp_server.Base.{
  eqb, ℕ, String, Bool, true, false, Option, none, some, List, [], ◌∷◌, ℤ, pos, Result, ok, err,
  length, if◌then◌else◌, ◌==◌, ◌<>◌, trim_space,
}
use lumen_mcp_server.Json.{
  Value, str, int, float64, bool, obj, arr, Items, nil, cons, Fields, end, field, Numbers, get, put,
}
use lumen_mcp_server.Gateway.Args.{as_map, as_string, as_int, as_bool, as_number}
use lumen_mcp_server.Ports.{GatewayAdminClient}
use lumen_mcp_server.Gateway.Client.{
  gateway_client, Client, JsonCodec, Transport, do_request, invoke_gateway_tool,
}
use lumen_mcp_server.Gateway.Latency.{
  Floats, PhaseSeries, HistogramSeries, TimeoutRecommendation, TuningOptions,
  default_tuning_options,
}
use lumen_mcp_server.Gateway.Latency.Metrics.{parse_latency_series}
use lumen_mcp_server.Gateway.Latency.Entries.{
  Group, timeout_fields, build_latency_entries, choose_tuning_target,
}

abbrev pub entry_items : {F : Type 0} → List (Fields F) → Items F
entry_items [] = nil
entry_items (e ∷ es) = cons (obj e) (entry_items es)

abbrev pub object_at : {F : Type 0} → Option (Value F) → Fields F
object_at (some (obj m)) = m
object_at v = end

abbrev pub value_or_null : {F : Type 0} → Option (Value F) → Value F
value_or_null none = Value.null
value_or_null (some v) = v

-- the body of `put_upstream`
abbrev pub put_args : {F : Type 0} → String → Fields F → Fields F
put_args upstream_id value = field "id" (str upstream_id) (field "body" (obj value) end)

module _ {F W : Type 0} (floats : Floats F) (json : JsonCodec F) (net : Transport W)
    (quote : String → String) (order : List (Group F) → List (Group F)) (c : Client) where
  abbrev series_in :
      TuningOptions F
      → Result String (String × ℕ)
      → Result String (List (PhaseSeries × HistogramSeries F))
  series_in opts (err e) = err e
  series_in opts (ok (text, status)) = ok (parse_latency_series floats text opts)

  unfoldable pub fetch_phase_series :
      W → TuningOptions F → Result String (List (PhaseSeries × HistogramSeries F)) × W
  fetch_phase_series w opts =
      let (r, w') = do_request floats.numbers json net c w "GET" "/metrics" none "text/plain" in
      (series_in opts r, w')

  abbrev pub no_series_message : String
  no_series_message = "No latency series matched filters/min_samples. Generate traffic and retry."

  analysis : TuningOptions F → List (Fields F) → Fields F
  analysis opts entries =
      let out = field "min_samples" (int opts.min_samples) (
        field "quantile" (float64 opts.quantile) (
          field "safety_factor" (float64 opts.safety_factor) (
            field "include_non_2xx" (bool opts.include_non_2xx) (
              field "route_id_filter" (str opts.route_id) (
                field "upstream_id_filter" (str opts.upstream_id) (
                  field "entries_total" (int (pos (length entries))) (
                    field "entries" (arr (entry_items entries)) (
                      field "next_recommendation"
                        (str
                          "Use tune_upstream_timeout with route_id or upstream_id to apply a recommendation.")
                        end)))))))) in
      if eqb (length entries) 0 then put "message" (str no_series_message) out else out

  analyzed :
      TuningOptions F
      → Result String (List (PhaseSeries × HistogramSeries F))
      → Result String (Fields F)
  unfolding analysis build_latency_entries
  analyzed opts (err e) = err e
  analyzed opts (ok series) = ok (analysis opts (build_latency_entries floats order series opts))

  unfoldable pub analyze_latency : W → Fields F → Result String (Fields F) × W
  unfolding analyzed fetch_phase_series
  analyze_latency w args =
      let opts = default_tuning_options floats args in
      let (fetched, w') = fetch_phase_series w opts in (analyzed opts fetched, w')

  -- the call of a tool by this client
  abbrev pub call : W → String → Fields F → Result String (Fields F) × W
  call w tool_name args = invoke_gateway_tool floats.numbers json net c w tool_name args

  -- What a call of `TuneUpstreamTimeout` has found before it writes: the options, whether the run is
  -- dry, the entries, the one to tune, its timeouts and its upstream.
  pub record Plan : Type 0 where
    pub opts : TuningOptions F
    pub dry_run : Bool
    pub scanned : ℕ
    pub target : Fields F
    pub timeouts : TimeoutRecommendation
    pub upstream_id : String

  nothing_to_tune : TuningOptions F → Bool → Fields F
  nothing_to_tune opts dry_run = field "dry_run" (bool dry_run) (
      field "updated" (bool false) (
        field "message" (str "No latency data matched filters/min_samples; nothing to tune.") (
          field "route_id_filter" (str opts.route_id)
            (field "upstream_id_filter" (str opts.upstream_id) end))))

  -- `currentTimeout[key]`, which is nil for a nil map
  before_fields : Fields F → Fields F
  before_fields current =
      field "connect" (as_number current "connect")
        (field "send" (as_number current "send") (field "read" (as_number current "read") end))

  report : Plan → Fields F → Fields F
  unfolding before_fields
  report p value = field "dry_run" (bool p.dry_run) (
      field "updated" (bool false) (
        field "route_id" (str (as_string p.target "route_id")) (
          field "upstream_id" (str p.upstream_id) (
            field "current_timeout" (obj (before_fields (object_at (get "timeout" value)))) (
              field "recommended_timeout" (obj (timeout_fields p.timeouts)) (
                field "latency_summary" (value_or_null (get "latency" p.target)) (
                  field "selection_reason" (str "Highest p95 series that matched filters.") (
                    field "safety_factor" (float64 p.opts.safety_factor) (
                      field "quantile" (float64 p.opts.quantile) (
                        field "min_samples" (int p.opts.min_samples) (
                          field "include_non_2xx" (bool p.opts.include_non_2xx)
                            (field "scanned_series_count" (int (pos p.scanned)) end))))))))))))

  put_answer : Plan → Fields F → Result String (Fields F) → Result String (Fields F)
  unfolding report
  put_answer p value (err e) = err ("put_upstream failed: " <> e)
  put_answer p value (ok answer) =
      ok (
        put "message" (str "Upstream timeout updated.")
          (put "updated" (bool true) (report p value)))

  -- the upstream's value with the recommended timeouts
  abbrev pub with_timeout : Plan → Fields F → Fields F
  with_timeout p value = put "timeout" (obj (timeout_fields p.timeouts)) value

  apply_timeout : Plan → W → Fields F → Result String (Fields F) × W
  unfolding put_answer
  apply_timeout p w value =
      let (answer, w') = call w "put_upstream" (put_args p.upstream_id (with_timeout p value)) in
      (put_answer p value answer, w')

  with_value : Plan → W → Result String (Fields F) → Result String (Fields F) × W
  unfolding apply_timeout report
  with_value p w (err e) = (err "get_upstream response missing value object", w)
  with_value p w (ok value) =
      if p.dry_run
      then (
        ok (
            put "message" (str "Dry-run only. Set dry_run=false to apply timeout update.")
              (report p value)),
        w,
      )
      else apply_timeout p w value

  with_upstream : Plan → W → Result String (Fields F) → Result String (Fields F) × W
  unfolding with_value
  with_upstream p w (err e) = (err ("get_upstream failed: " <> e), w)
  with_upstream p w (ok answer) = with_value p w (as_map answer "value")

  tune_target : Plan → W → Result String (Fields F) × W
  unfolding with_upstream
  tune_target p w =
      if p.upstream_id == ""
      then (err "cannot tune timeout: upstream_id is empty on selected series", w)
      else let (answer, w') = call w "get_upstream" (field "id" (str p.upstream_id) end) in
        with_upstream p w' answer

  with_recommendation :
      TuningOptions F → Bool → ℕ → Fields F → W → Option (Value F) → Result String (Fields F) × W
  unfolding tune_target
  with_recommendation opts dry_run scanned target w (some (obj rec)) =
      tune_target
        (record {
          opts = opts;
          dry_run = dry_run;
          scanned = scanned;
          target = target;
          timeouts = record {
            connect = as_int floats.numbers rec "connect" (pos 3);
            send = as_int floats.numbers rec "send" (pos 10);
            read = as_int floats.numbers rec "read" (pos 10);
          };
          upstream_id = trim_space (as_string target "upstream_id");
        })
        w
  with_recommendation opts dry_run scanned target w v =
      (err "internal error: missing recommended_timeout", w)

  -- A panic of the choice ends the call; no entries never reach it.
  with_target :
      TuningOptions F
      → Bool
      → ℕ
      → W
      → Option (Result String (Fields F))
      → Result String (Fields F) × W
  unfolding with_recommendation
  with_target opts dry_run scanned w none = (err "panic: index out of range", w)
  with_target opts dry_run scanned w (some (err e)) = (err e, w)
  with_target opts dry_run scanned w (some (ok target)) =
      with_recommendation opts dry_run scanned target w (get "recommended_timeout" target)

  with_entries : TuningOptions F → Bool → W → List (Fields F) → Result String (Fields F) × W
  unfolding with_target nothing_to_tune
  with_entries opts dry_run w [] = (ok (nothing_to_tune opts dry_run), w)
  with_entries opts dry_run w (e ∷ es) =
      with_target opts dry_run (length (e ∷ es)) w (choose_tuning_target floats quote (e ∷ es) opts)

  with_series :
      TuningOptions F
      → Bool
      → W
      → Result String (List (PhaseSeries × HistogramSeries F))
      → Result String (Fields F) × W
  unfolding with_entries
  with_series opts dry_run w (err e) = (err e, w)
  with_series opts dry_run w (ok series) =
      with_entries opts dry_run w (build_latency_entries floats order series opts)

  unfoldable pub tune_upstream_timeout : W → Fields F → Result String (Fields F) × W
  unfolding with_series fetch_phase_series
  tune_upstream_timeout w args =
      let opts = default_tuning_options floats args in
      let (fetched, w') = fetch_phase_series w opts in
      with_series opts (as_bool args "dry_run" true) w' fetched

  -- the whole client, with its own latency tools
  unfoldable pub latency_client : GatewayAdminClient W (Fields F) (Fields F)
  latency_client = gateway_client floats.numbers json net analyze_latency tune_upstream_timeout c
