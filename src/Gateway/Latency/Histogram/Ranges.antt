-- ===== src/Gateway/Latency/Histogram/Ranges.antt =====
-- The ranges of the options and of the recommended timeouts.
use lumen_mcp_server.Base.{
  true, ◌⊎◌, ℕ, false, ℤ, pos, lt_int, Bool-cases, ◌≡◌, inl, inr, refl, arith,
}
use lumen_mcp_server.Json.{Fields}
use lumen_mcp_server.Gateway.Latency.{
  as_int, as_float, Floats, SeriesStats, TimeoutRecommendation, TuningOptions, at_least_one, whole,
  at_least, quantile_or_default, default_tuning_options,
}
use lumen_mcp_server.Gateway.Latency.Histogram.{clamp_int, seconds_of, recommend_timeouts}

-- a <= b
abbrev pub Le : ℤ → ℤ → Type 0
Le a b = lt_int b a ≡ false

clamp_int-bounds :
    (v least most : ℤ)
    → Le least most
    → Le least (clamp_int v least most) × Le (clamp_int v least most) most
unfolding clamp_int
clamp_int-bounds v least most h = ground arith

at_least_one-le : (v : ℤ) → Le (pos 1) (at_least_one v)
at_least_one-le v = ground arith

module _ {F : Type 0} (floats : Floats F) where
  -- A float that is not the same as itself.
  abbrev pub IsNan : F → Type 0
  IsNan v = floats.same v v ≡ false

  -- At least the whole number n, or a NaN.
  abbrev pub AtLeast : ℕ → F → Type 0
  AtLeast n v = IsNan v ⊎ (floats.le (whole floats n) v ≡ true)

  -- The options are in their ranges: the whole numbers are at least one, and each float is a NaN or
  -- at least its least value; the quantile is a NaN, or it is above 0 and at most 1.
  pub record InRange (opts : TuningOptions F) : Type 0 where
    pub min_samples : Le (pos 1) opts.min_samples
    pub max_connect_seconds : Le (pos 1) opts.max_connect_seconds
    pub max_read_seconds : Le (pos 1) opts.max_read_seconds
    pub safety_factor : AtLeast 1 opts.safety_factor
    pub min_connect_ms : AtLeast 100 opts.min_connect_ms
    pub min_read_ms : AtLeast 300 opts.min_read_ms
    pub quantile :
        IsNan opts.quantile
        ⊎ ((floats.lt (whole floats 0) opts.quantile ≡ true)
            × (floats.le opts.quantile (whole floats 1) ≡ true))

  -- The arguments that are in their ranges are the options.
  pub record Keeps (args : Fields F) (opts : TuningOptions F) : Type 0 where
    pub min_samples :
        let v = as_int floats.numbers args "min_samples" (pos 20) in
        Le (pos 1) v → opts.min_samples ≡ v
    pub max_connect_seconds :
        let v = as_int floats.numbers args "max_connect_seconds" (pos 10) in
        Le (pos 1) v → opts.max_connect_seconds ≡ v
    pub max_read_seconds :
        let v = as_int floats.numbers args "max_read_seconds" (pos 120) in
        Le (pos 1) v → opts.max_read_seconds ≡ v
    pub safety_factor :
        let v = as_float floats.numbers args "safety_factor" (whole floats 3) in
        floats.le (whole floats 1) v ≡ true → opts.safety_factor ≡ v
    pub min_connect_ms :
        let v = as_float floats.numbers args "min_connect_ms" (whole floats 300) in
        floats.le (whole floats 100) v ≡ true → opts.min_connect_ms ≡ v
    pub min_read_ms :
        let v = as_float floats.numbers args "min_read_ms" (whole floats 1000) in
        floats.le (whole floats 300) v ≡ true → opts.min_read_ms ≡ v
    pub quantile :
        let v = as_float floats.numbers args "quantile" (floats.constant 95 100) in
        floats.lt (whole floats 0) v ≡ true
        → floats.le v (whole floats 1) ≡ true
        → opts.quantile ≡ v

  -- What the code relies on: two floats that are not NaNs are compared one way or the other, no two
  -- both ways, whole numbers are not NaNs, and 0.95 is above 0 and at most 1.
  pub record HasConstants : Type 0 where
    pub below_or_not :
        (a b : F)
        → floats.same a a ≡ true
        → floats.same b b ≡ true
        → floats.lt a b ≡ false
        → floats.le b a ≡ true
    pub above_or_not :
        (a b : F)
        → floats.same a a ≡ true
        → floats.same b b ≡ true
        → floats.le a b ≡ false
        → floats.lt b a ≡ true
    pub le_not_lt : (a b : F) → floats.le a b ≡ true → floats.lt b a ≡ false
    pub lt_not_le : (a b : F) → floats.lt a b ≡ true → floats.le b a ≡ false
    pub le_self : (n : ℕ) → floats.le (whole floats n) (whole floats n) ≡ true
    pub no_nan : (n : ℕ) → floats.same (whole floats n) (whole floats n) ≡ true
    pub default_pos : floats.lt (whole floats 0) (floats.constant 95 100) ≡ true
    pub default_le : floats.le (floats.constant 95 100) (whole floats 1) ≡ true

  at_least-AtLeast : (n : ℕ) (v : F) → HasConstants → AtLeast n (at_least floats (whole floats n) v)
  at_least-AtLeast n v h = elim (Bool-cases (floats.lt v (whole floats n))) [
    | inl low ↦ rw low (inr (h.le_self n))
    | inr fine ↦ elim (Bool-cases (floats.same v v)) [
      | inl number ↦ rw fine (inr (h.below_or_not v (whole floats n) number (h.no_nan n) fine))
      | inr nan ↦ rw fine (inl nan)
    ]
  ]

  quantile-range :
      (q : F)
      → HasConstants
      → let r = quantile_or_default floats q in
        IsNan r ⊎ ((floats.lt (whole floats 0) r ≡ true) × (floats.le r (whole floats 1) ≡ true))
  quantile-range q h = elim (Bool-cases (floats.same q q)) [
    | inl number ↦ ground (
      arith,
      h.default_pos,
      h.default_le,
      h.above_or_not q (whole floats 0) number (h.no_nan 0),
      h.below_or_not (whole floats 1) q (h.no_nan 1) number,
    )
    | inr nan ↦ ground (arith, h.default_pos, h.default_le)
  ]

  at_least_one-keeps : (v : ℤ) → Le (pos 1) v → at_least_one v ≡ v
  at_least_one-keeps v le = ground arith

  at_least-keeps :
      (n : ℕ) (v : F)
      → HasConstants
      → floats.le (whole floats n) v ≡ true
      → at_least floats (whole floats n) v ≡ v
  at_least-keeps n v h le = rw (h.le_not_lt (whole floats n) v le) refl

  quantile-keeps :
      (q : F)
      → HasConstants
      → floats.lt (whole floats 0) q ≡ true
      → floats.le q (whole floats 1) ≡ true
      → quantile_or_default floats q ≡ q
  quantile-keeps q h above below =
      rw (h.lt_not_le (whole floats 0) q above, h.le_not_lt q (whole floats 1) below) refl

  default_tuning_options-Keeps :
      (args : Fields F) → HasConstants → Keeps args (default_tuning_options floats args)
  unfolding default_tuning_options
  default_tuning_options-Keeps args h = record {
    min_samples = at_least_one-keeps _;
    max_connect_seconds = at_least_one-keeps _;
    max_read_seconds = at_least_one-keeps _;
    safety_factor = at_least-keeps 1 _ h;
    min_connect_ms = at_least-keeps 100 _ h;
    min_read_ms = at_least-keeps 300 _ h;
    quantile = quantile-keeps _ h;
  }

  -- Whatever the arguments of a call are, its options are in their ranges, but for floats that are
  -- given as a NaN: the whole numbers are at least 1, the factor is at least 1, the least timeouts are
  -- at least 100 and 300 milliseconds, and the quantile is above 0 and at most 1. An argument that is
  -- in its range is kept as it is.
  pub default_tuning_options-InRange :
      (args : Fields F)
      → HasConstants
      → let opts = default_tuning_options floats args in InRange opts × Keeps args opts
  unfolding default_tuning_options
  default_tuning_options-InRange args h = (
    record {
      min_samples = at_least_one-le (as_int floats.numbers args "min_samples" (pos 20));
      max_connect_seconds =
          at_least_one-le (as_int floats.numbers args "max_connect_seconds" (pos 10));
      max_read_seconds = at_least_one-le (as_int floats.numbers args "max_read_seconds" (pos 120));
      safety_factor =
          at_least-AtLeast 1 (as_float floats.numbers args "safety_factor" (whole floats 3)) h;
      min_connect_ms =
          at_least-AtLeast 100 (as_float floats.numbers args "min_connect_ms" (whole floats 300)) h;
      min_read_ms =
          at_least-AtLeast 300 (as_float floats.numbers args "min_read_ms" (whole floats 1000)) h;
      quantile =
          quantile-range (as_float floats.numbers args "quantile" (floats.constant 95 100)) h;
    },
    default_tuning_options-Keeps args h,
  )

  -- Timeouts that may be applied under the options: at least one second, at most the maximum, and the
  -- same for sending and reading.
  pub record IsAllowed (opts : TuningOptions F) (t : TimeoutRecommendation) : Type 0 where
    pub connect_ge : Le (pos 1) t.connect
    pub connect_le : Le t.connect opts.max_connect_seconds
    pub read_ge : Le (pos 1) t.read
    pub read_le : Le t.read opts.max_read_seconds
    pub send : t.send ≡ t.read

  seconds_of-bounds :
      (latency factor least : F) (most : ℤ)
      → Le (pos 1) most
      → Le (pos 1) (seconds_of floats latency factor least most)
        × Le (seconds_of floats latency factor least most) most
  unfolding seconds_of
  seconds_of-bounds latency factor least most h =
      let recommended = floats.larger (floats.mul latency factor) least in
      clamp_int-bounds
        (floats.numbers.truncate (floats.ceil (floats.div recommended (whole floats 1000)))) (pos 1)
        most h

  -- The recommended timeouts of a call may be applied, whatever the measured latencies are, and
  -- however the floats behave.
  pub recommend_timeouts-IsAllowed :
      (connect total : SeriesStats F) (args : Fields F)
      → let opts = default_tuning_options floats args in
        IsAllowed opts (recommend_timeouts floats connect total opts)
  unfolding recommend_timeouts default_tuning_options
  recommend_timeouts-IsAllowed connect total args =
      let (connect_ge, connect_le) =
        seconds_of-bounds _ _ _ _
          (at_least_one-le (as_int floats.numbers args "max_connect_seconds" (pos 10))) in
      let (read_ge, read_le) =
        seconds_of-bounds _ _ _ _
          (at_least_one-le (as_int floats.numbers args "max_read_seconds" (pos 120))) in
      record {
        connect_ge = connect_ge;
        connect_le = connect_le;
        read_ge = read_ge;
        read_le = read_le;
        send = refl;
      }
