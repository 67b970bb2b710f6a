-- ===== src/Gateway/Latency/Histogram.antt =====
-- internal/infrastructure/gatewayclient/latency_tools.go: the summary of a histogram, its quantiles,
-- and the timeouts that are recommended from them.
pub mod Quantile
pub mod Ranges
use lumen_mcp_server.Base.{
  sort_by, ℕ, zero, suc, ◌+◌, ◌-◌, ◌≤◌, ◌<◌, String, Bool, true, false, not, ◌&&◌, ◌||◌, Option,
  none, some, List, [], ◌∷◌, ◌++◌, map, length, ℤ, pos, negsuc, lt_int, not_pos, to_nat, Result, ok,
  err, map_err, Result-cases, Option-cases, Bool-cases, ltb, leb, eqb, if◌then◌else◌, ◌==◌, ◌<>◌,
  lookup, assign, itoa, trim_space, trim_slashes, trim_prefix, has_prefix, split, fields, ◌≡◌, ◌≢◌,
  ◌↔◌, ◌⊎◌, inl, inr, refl, sym, ap, ◌∙◌, arith, eq_iff, All, Any, any,
}
use lumen_mcp_server.Gateway.Latency.{
  Floats, HistogramSeries, SeriesStats, TimeoutRecommendation, TuningOptions, whole,
}

unfoldable pub clamp_int : ℤ → ℤ → ℤ → ℤ
clamp_int v least most = if lt_int v least then least else if lt_int most v then most else v

module _ {F : Type 0} (floats : Floats F) where
  -- `math.IsInf(bound, 1)`
  abbrev pub is_inf : F → Bool
  is_inf bound = floats.same bound floats.infinity

  -- the order of `sort.Float64s`: NaN, which is not the same as itself, comes first
  abbrev pub sorts_before : F → F → Bool
  sorts_before a b = floats.lt a b || (not (floats.same a a) && floats.same b b)

  -- `buckets[bound]`
  unfoldable pub bucket_at : F → List (F × F) → F
  bucket_at bound [] = whole floats 0
  bucket_at bound ((b, n) ∷ buckets) = if floats.same b bound then n else bucket_at bound buckets

  -- the loop over the sorted bounds
  unfoldable pub scan_bounds : List (F × F) → F → List F → F → F
  unfolding bucket_at
  scan_bounds buckets target [] last_finite = last_finite
  scan_bounds buckets target (bound ∷ bounds) last_finite =
      let last = if is_inf bound then last_finite else bound in
      let rest = scan_bounds buckets target bounds last in
      if floats.le target (bucket_at bound buckets)
      then (if is_inf bound then last else bound)
      else rest

  -- `count * q`, and at least one
  unfoldable pub target_of : F → F → F
  target_of count q =
      let target = floats.mul count q in
      if floats.lt target (whole floats 1) then whole floats 1 else target

  unfoldable pub bounds_of : List (F × F) → List F
  bounds_of buckets = sort_by sorts_before (map (λ e. e.0) buckets)

  abbrev pub is_none : List (F × F) → Bool
  is_none [] = true
  is_none (e ∷ buckets) = false

  unfoldable pub histogram_quantile : List (F × F) → F → F → F
  unfolding scan_bounds target_of bounds_of
  histogram_quantile buckets count q =
      if is_none buckets || floats.le count (whole floats 0)
      then whole floats 0
      else scan_bounds buckets (target_of count q) (bounds_of buckets) (whole floats 0)

  abbrev pub find_same : F → List (F × F) → Option F
  find_same bound [] = none
  find_same bound ((b, n) ∷ buckets) =
      if floats.same b bound then some n else find_same bound buckets

  abbrev pub count_or : F → Option F → F
  count_or count none = count
  count_or count (some inf) = inf

  unfoldable pub samples_of : HistogramSeries F → F
  samples_of series =
      if floats.le series.count (whole floats 0)
      then count_or series.count (find_same floats.infinity series.buckets)
      else series.count

  unfoldable pub summarize_histogram : HistogramSeries F → SeriesStats F
  unfolding samples_of histogram_quantile
  summarize_histogram series =
      let count = samples_of series in
      record {
        count = count;
        mean =
            if floats.lt (whole floats 0) count
            then floats.div series.sum count
            else whole floats 0;
        p95 = histogram_quantile series.buckets count (floats.constant 95 100);
        p99 = histogram_quantile series.buckets count (floats.constant 99 100);
      }

  -- `v * 1000`, or the fallback where that is not positive
  abbrev pub millis_or : F → F → F
  millis_or fallback v =
      let ms = floats.mul v (whole floats 1000) in
      if floats.le ms (whole floats 0) then fallback else ms

  -- the seconds of a timeout: the latency times the factor, at least the minimum, rounded up, and kept
  -- between one second and the maximum
  unfoldable pub seconds_of : F → F → F → ℤ → ℤ
  unfolding clamp_int
  seconds_of latency_ms factor least_ms most =
      let recommended = floats.larger (floats.mul latency_ms factor) least_ms in
      clamp_int (floats.numbers.truncate (floats.ceil (floats.div recommended (whole floats 1000))))
        (pos 1) most

  unfoldable pub recommend_timeouts :
      SeriesStats F → SeriesStats F → TuningOptions F → TimeoutRecommendation
  unfolding seconds_of
  recommend_timeouts connect total opts =
      let connect_sec =
        seconds_of (millis_or opts.min_connect_ms connect.p95) opts.safety_factor
          opts.min_connect_ms opts.max_connect_seconds in
      let read_sec =
        seconds_of (millis_or opts.min_read_ms total.p95) opts.safety_factor opts.min_read_ms
          opts.max_read_seconds in
      record { connect = connect_sec; send = read_sec; read = read_sec }
