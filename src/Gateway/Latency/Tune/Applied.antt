-- ===== src/Gateway/Latency/Tune/Applied.antt =====
-- A call of `TuneUpstreamTimeout` sends the requests that it may send, and no others.
use lumen_mcp_server.Base.{
  sym, ℕ, String, Bool, true, false, Option, none, some, List, [], ◌∷◌, length, Result, ok, err,
  if◌then◌else◌, ◌==◌, ◌<>◌, trim_space, ◌≡◌, refl, ap, ◌∙◌, All,
}
use lumen_mcp_server.Json.{str, Fields, end, field, get, put}
use lumen_mcp_server.Gateway.Args.{as_map, as_string, as_int, as_bool}
use lumen_mcp_server.Gateway.Request.{resource_path}
use lumen_mcp_server.Gateway.Client.{Client, JsonCodec, Transport, prepare, do_request}
use lumen_mcp_server.Gateway.Client.Responses.{prepare-Carries}
use lumen_mcp_server.Gateway.Latency.{
  Floats, PhaseSeries, HistogramSeries, TuningOptions, default_tuning_options,
}
use lumen_mcp_server.Gateway.Latency.Histogram.Ranges.{IsAllowed}
use lumen_mcp_server.Gateway.Latency.Entries.{Group, build_latency_entries, choose_tuning_target}
use lumen_mcp_server.Gateway.Latency.Entries.Chosen.{choose_tuning_target-All}
use lumen_mcp_server.Gateway.Latency.Entries.Shape.{HasTimeouts, build_latency_entries-HasTimeouts}
use lumen_mcp_server.Gateway.Latency.Tune.{
  Plan, put_answer, report, nothing_to_tune, put_args, with_timeout, apply_timeout, with_value,
  with_upstream, tune_target, with_recommendation, with_target, with_entries, with_series,
  fetch_phase_series, tune_upstream_timeout,
}
use lumen_mcp_server.Gateway.Latency.Tune.Requests.{
  Exchange, read_answer, recorded, IsRead, Requests, Says, metrics, looked, updated, Called, silent,
  sent, call-Called, get_upstream-asked, put_upstream-asked,
}

either_branch :
    {A : Type 0} (P : A → Type 0) (b : Bool) (x y : A)
    → (b ≡ true → P x)
    → (b ≡ false → P y)
    → P (if b then x else y)
either_branch P true x y h k = h refl
either_branch P false x y h k = k refl

module _ {F W : Type 0} (floats : Floats F) (json : JsonCodec F) (net : Transport W)
    (quote : String → String) (order : List (Group F) → List (Group F)) (c : Client)
    (args : Fields F) where
  abbrev options : TuningOptions F
  options = default_tuning_options floats args

  -- The requests of a plan's run that are allowed.
  abbrev Logged : Bool → Result String (Fields F) × (W × List Exchange) → Type 0
  Logged dry_run ran = Requests floats json c options dry_run ran.0 ran.1.1

  -- what is sent for a plan whose timeouts may be applied, after the metrics are read
  module _ (p : Plan floats json (recorded net) quote order c)
      (allowed : IsAllowed floats options p.timeouts) (m : Exchange)
      (read : IsRead floats json c "/metrics" m) where
    abbrev path : String
    path = resource_path floats.numbers "upstreams" (trim_space p.upstream_id)

    put_answer-Says :
        (value : Fields F) (written r : Result String (Fields F))
        → r ≡ written
        → Says floats json c written (put_answer floats json (recorded net) quote order c p value r)
    unfolding put_answer report get put
    put_answer-Says value (err e) (err e') same = tt
    put_answer-Says value (ok answer) (ok m) same = refl
    put_answer-Says value (err e) (ok m) same = cc same
    put_answer-Says value (ok answer) (err e) same = cc same

    put-Logged :
        (g : Exchange) (upstream value : Fields F) (r : Result String (Fields F))
        (log : List Exchange)
        → read_answer floats json c g.1 ≡ ok upstream
        → as_map upstream "value" ≡ ok value
        → p.dry_run ≡ false
        → IsRead floats json c path g
        → Called floats json c "put_upstream"
            (put_args p.upstream_id (with_timeout floats json (recorded net) quote order c p value))
            (m ∷ g ∷ [])
            r
            log
        → Requests floats json c options p.dry_run
            (put_answer floats json (recorded net) quote order c p value r)
            log
    unfolding put_answer report get put
    put-Logged g upstream value r log found stored wet got (silent e) =
        looked m g (trim_space p.upstream_id) _ read got tt
    put-Logged g upstream value r log found stored wet got (sent r' x prepared answer) =
        let changed = with_timeout floats json (recorded net) quote order c p value in
        let (spec, asked, carried) =
          prepare-Carries floats.numbers json c "put_upstream" (put_args p.upstream_id changed) x.0
            prepared in
        let (method, place, body) =
          put_upstream-asked floats json c p.upstream_id changed spec asked in
        updated m g x (trim_space p.upstream_id) _ wet read got
          (record {
            method = carried.method ∙ method;
            url = carried.url ∙ ap (λ s. c.base_url <> s) place;
            upstream = upstream;
            upstream_read = found;
            value = value;
            value_read = stored;
            timeouts = p.timeouts;
            allowed = allowed;
            body = rw body at carried.body;
          })
          (put_answer-Says value (read_answer floats json c x.1) r' answer)

    get-IsRead :
        (x : Exchange)
        → prepare floats.numbers json c "get_upstream" (field "id" (str p.upstream_id) end) ≡ ok x.0
        → IsRead floats json c path x
    get-IsRead x prepared =
        let (spec, asked, carried) =
          prepare-Carries floats.numbers json c "get_upstream" (field "id" (str p.upstream_id) end)
            x.0 prepared in
        let (method, place) = get_upstream-asked floats json c p.upstream_id spec asked in
        record {
          method = carried.method ∙ method;
          url = carried.url ∙ ap (λ s. c.base_url <> s) place;
        }

    with_value-Logged :
        (g : Exchange) (w : W) (upstream : Fields F) (r : Result String (Fields F))
        → read_answer floats json c g.1 ≡ ok upstream
        → as_map upstream "value" ≡ r
        → IsRead floats json c path g
        → Logged p.dry_run (with_value floats json (recorded net) quote order c p (w, m ∷ g ∷ []) r)
    unfolding with_value apply_timeout report get put
    with_value-Logged g w upstream (err e) found stored got =
        looked m g (trim_space p.upstream_id) _ read got tt
    with_value-Logged g w upstream (ok value) found stored got =
        either_branch (Logged p.dry_run) p.dry_run _ _
          (λ dry. looked m g (trim_space p.upstream_id) _ read got refl)
          (λ wet. put-Logged g upstream value _ _ found stored wet got (
            call-Called floats json c net w (m ∷ g ∷ []) "put_upstream" (
              put_args p.upstream_id
                (with_timeout floats json (recorded net) quote order c p value))))

    get-Logged :
        (w : W) (r : Result String (Fields F)) (log : List Exchange)
        → Called floats json c "get_upstream" (field "id" (str p.upstream_id) end) (m ∷ []) r log
        → Logged p.dry_run (with_upstream floats json (recorded net) quote order c p (w, log) r)
    unfolding with_upstream
    get-Logged w (err e) log (silent e') = metrics m _ read tt
    get-Logged w (err e) log (sent r x prepared answer) =
        looked m x (trim_space p.upstream_id) _ read (get-IsRead x prepared) tt
    get-Logged w (ok upstream) log (sent r x prepared answer) =
        with_value-Logged x w upstream (as_map upstream "value") (sym answer) refl
          (get-IsRead x prepared)

    tune_target-Logged :
        (w : W)
        → Logged p.dry_run (tune_target floats json (recorded net) quote order c p (w, m ∷ []))
    unfolding tune_target
    tune_target-Logged w =
        either_branch (Logged p.dry_run) (p.upstream_id == "") _ _ (λ blank. metrics m _ read tt)
          (λ named. get-Logged _ _ _ (
            call-Called floats json c net w (m ∷ []) "get_upstream"
              (field "id" (str p.upstream_id) end)))

  -- the same from the choice of the entry on
  module _ (dry_run : Bool) (m : Exchange) (read : IsRead floats json c "/metrics" m) (w : W) where
    with_recommendation-Logged :
        (scanned : ℕ) (target : Fields F)
        → HasTimeouts floats args target
        → Logged dry_run (
            with_recommendation floats json
              (recorded net)
              quote
              order
              c
              options
              dry_run
              scanned
              target
              (w, m ∷ [])
              (get "recommended_timeout" target))
    unfolding with_recommendation as_int get
    with_recommendation-Logged scanned target has = rw has.stored (
        tune_target-Logged
          (record {
            opts = options;
            dry_run = dry_run;
            scanned = scanned;
            target = target;
            timeouts = has.timeouts;
            upstream_id = trim_space (as_string target "upstream_id");
          })
          has.allowed m read w)

    with_target-Logged :
        (scanned : ℕ) (e : Fields F) (es : List (Fields F))
        (choice : Option (Result String (Fields F)))
        → All (HasTimeouts floats args) (e ∷ es)
        → choose_tuning_target floats quote (e ∷ es) options ≡ choice
        → Logged dry_run (
            with_target floats json
              (recorded net)
              quote
              order
              c
              options
              dry_run
              scanned
              (w, m ∷ [])
              choice)
    unfolding with_target
    with_target-Logged scanned e es none all chosen = metrics m _ read tt
    with_target-Logged scanned e es (some (err x)) all chosen = metrics m _ read tt
    with_target-Logged scanned e es (some (ok target)) all chosen =
        with_recommendation-Logged scanned target (
          choose_tuning_target-All floats quote (HasTimeouts floats args) options e es target all
            chosen)

    with_entries-Logged :
        (entries : List (Fields F))
        → All (HasTimeouts floats args) entries
        → Logged dry_run (
            with_entries floats json
              (recorded net)
              quote
              order
              c
              options
              dry_run
              (w, m ∷ [])
              entries)
    unfolding with_entries nothing_to_tune get
    with_entries-Logged [] all = metrics m _ read refl
    with_entries-Logged (e ∷ es) all =
        with_target-Logged (length (e ∷ es)) e es
          (choose_tuning_target floats quote (e ∷ es) options) all refl

    with_series-Logged :
        (r : Result String (List (PhaseSeries × HistogramSeries F)))
        → Logged dry_run
            (with_series floats json (recorded net) quote order c options dry_run (w, m ∷ []) r)
    unfolding with_series
    with_series-Logged (err e) = metrics m _ read tt
    with_series-Logged (ok series) =
        with_entries-Logged (build_latency_entries floats order series options)
          (build_latency_entries-HasTimeouts floats args order series)

  -- Whatever the gateway answers, a call of the tuning tool reads the metrics; it may then read one
  -- upstream; and only if the run is not dry may it then write, once and to that same upstream,
  -- the value that it read with other timeouts, which are between one second and the maxima of the
  -- call. It sends nothing else. Its result reports a change exactly if a write was sent and answered
  -- without an error; a write that fails makes the call fail.
  pub tune_upstream_timeout-Requests :
      (w : W)
      → let ran = tune_upstream_timeout floats json (recorded net) quote order c (w, []) args in
        Requests floats json c options (as_bool args "dry_run" true) ran.0 ran.1.1
  unfolding tune_upstream_timeout fetch_phase_series do_request trim_space
  tune_upstream_timeout-Requests w =
      with_series-Logged (as_bool args "dry_run" true)
        (
          record {
            method = "GET";
            url = c.base_url <> "/metrics";
            api_key = c.api_key;
            accept = "text/plain";
            body = none;
          },
          _,
        )
        (record { method = refl; url = refl }) _ _
