-- ===== src/Gateway/Latency/Histogram/Quantile.antt =====
-- What a quantile of a histogram is.
use lumen_mcp_server.Base.{
  IsSorted, IsOrder, sort_by, sort_by-IsSorted, sort_by-Any, sort_by-All, sort_by-Any_of,
  sort_by-All_of, true, false, List, [], ◌∷◌, map, ◌≡◌, All, Any, inl, inr, refl, Bool-cases,
  if◌then◌else◌,
}
use lumen_mcp_server.Gateway.Latency.{Floats, whole}
use lumen_mcp_server.Gateway.Latency.Histogram.{
  sorts_before, is_inf, bucket_at, scan_bounds, target_of, bounds_of, is_none, histogram_quantile,
}

module _ {F : Type 0} (floats : Floats F) (Good : F → Type 0)
    (order : IsOrder (sorts_before floats) Good) where
  irrefl : (b : F) → Good b → sorts_before floats b b ≡ false
  irrefl b good = elim (Bool-cases (sorts_before floats b b)) [
    | inl less ↦ order.asym b b good good less
    | inr fine ↦ fine
  ]

  abbrev pub upper_bounds : List (F × F) → List F
  upper_bounds buckets = map (λ e. e.0) buckets

  -- As many samples as the target lie at or below the bound.
  abbrev pub Reaches : List (F × F) → F → F → Type 0
  Reaches buckets target bound = floats.le target (bucket_at floats bound buckets) ≡ true

  -- The least of some bounds that reaches the target, and the quantile unless it is infinite.
  pub record IsLeast (buckets : List (F × F)) (target : F) (bounds : List F) (quantile : F)
      : Type 0 where
    pub bound : F
    pub listed : Any (λ b. bound ≡ b) bounds
    pub reaches : Reaches buckets target bound
    pub least : All (λ b. Reaches buckets target b → sorts_before floats b bound ≡ false) bounds
    pub returned : is_inf floats bound ≡ false → quantile ≡ bound

  All-later :
      (buckets : List (F × F)) (target b : F) (bounds : List F)
      → All (λ y. sorts_before floats y b ≡ false) bounds
      → All (λ y. Reaches buckets target y → sorts_before floats y b ≡ false) bounds
  All-later buckets target b [] all = tt
  All-later buckets target b (y ∷ ys) (h, all) = (λ r. h, All-later buckets target b ys all)

  scan_bounds-IsLeast :
      (buckets : List (F × F)) (target : F) (bounds : List F) (last : F)
      → All Good bounds
      → IsSorted (sorts_before floats) bounds
      → Any (Reaches buckets target) bounds
      → IsLeast buckets target bounds (scan_bounds floats buckets target bounds last)
  unfolding scan_bounds
  scan_bounds-IsLeast buckets target [] last goods sorted any = elim any [ ]
  scan_bounds-IsLeast buckets target (b ∷ bounds) last (good, goods) (after, sorted) any =
      elim (Bool-cases (floats.le target (bucket_at floats b buckets))) [
        | inl enough ↦ record {
          bound = b;
          listed = inl refl;
          reaches = enough;
          least = (λ r. irrefl b good, All-later buckets target b bounds after);
          returned = λ finite. rw (enough, finite) refl;
        }
        | inr few ↦
            let others : Any (Reaches buckets target) bounds = elim any [
              | inl r ↦ absurd (cc (r, few))
              | inr rest ↦ rest
            ] in
            let found =
              scan_bounds-IsLeast buckets target bounds (if is_inf floats b then last else b) goods
                sorted others in
            record {
              bound = found.bound;
              listed = inr found.listed;
              reaches = found.reaches;
              least = (λ r. absurd (cc (r, few)), found.least);
              returned = λ finite. rw (few, scan_bounds) (found.returned finite);
            }
      ]

  some_bucket :
      (buckets : List (F × F)) (target : F)
      → Any (Reaches buckets target) (upper_bounds buckets)
      → is_none floats buckets ≡ false
  some_bucket [] target any = elim any [ ]
  some_bucket (e ∷ buckets) target any = refl

  -- Where the bounds are ordered, the count is positive and some bucket holds as many samples as the
  -- target, the quantile is the least bound with that many samples at or below it, unless that bound
  -- is infinite.
  pub histogram_quantile-IsLeast :
      (buckets : List (F × F)) (count q : F)
      → All Good (upper_bounds buckets)
      → floats.le count (whole floats 0) ≡ false
      → Any (Reaches buckets (target_of floats count q)) (upper_bounds buckets)
      → IsLeast buckets
          (target_of floats count q)
          (upper_bounds buckets)
          (histogram_quantile floats buckets count q)
  unfolding histogram_quantile bounds_of
  histogram_quantile-IsLeast buckets count q goods positive any =
      let target = target_of floats count q in
      let bounds = upper_bounds buckets in
      let found =
        scan_bounds-IsLeast buckets target (sort_by (sorts_before floats) bounds) (whole floats 0)
          (sort_by-All (sorts_before floats) Good bounds goods)
          (sort_by-IsSorted (sorts_before floats) Good order bounds goods)
          (sort_by-Any (sorts_before floats) (Reaches buckets target) bounds any) in
      record {
        bound = found.bound;
        listed = sort_by-Any_of (sorts_before floats) (λ b. found.bound ≡ b) bounds found.listed;
        reaches = found.reaches;
        least =
            sort_by-All_of (sorts_before floats)
              (λ b. Reaches buckets target b → sorts_before floats b found.bound ≡ false) bounds
              found.least;
        returned = λ finite. rw (some_bucket buckets target any, positive) (found.returned finite);
      }
