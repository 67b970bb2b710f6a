-- ===== src/Gateway/Latency/Entries/Chosen.antt =====
-- Which entry is tuned.
use lumen_mcp_server.Base.{
  ◌↔◌, refl, err, eq_iff, ◌⊎◌, inr, arith, ◌||◌, inl, ok, Option-cases, ◌==◌, [], some, ◌∷◌,
  Bool-cases, Result, ◌≢◌, Any, none, All, false, not, Option, ◌≡◌, String, List, IsSorted, IsOrder,
  sort_by-IsSorted, sort_by-All,
}
use lumen_mcp_server.Json.{Fields}
use lumen_mcp_server.Gateway.Args.{as_string}
use lumen_mcp_server.Gateway.Latency.{Floats, PhaseSeries, HistogramSeries, TuningOptions}
use lumen_mcp_server.Gateway.Latency.Entries.{
  Group, aggregate, entries_of, p95_of, comes_before, build_latency_entries, rejects, find_target,
  after_loop, choose_tuning_target,
}

find_target-All :
    {F : Type 0} (floats : Floats F) (P : Fields F → Type 0) (opts : TuningOptions F)
    (entries : List (Fields F)) (target : Fields F)
    → All P entries
    → find_target floats opts entries ≡ some target
    → P target
unfolding find_target
find_target-All floats P opts [] target all h = cc
find_target-All floats P opts (e ∷ entries) target (p, all) h =
    elim (Bool-cases (rejects floats opts e)) [
      | inl out ↦ find_target-All floats P opts entries target all (rw (out, find_target) at h)
      | inr fine ↦ let same : e ≡ target = cc (rw (fine, find_target) at h) in rw (← same) p
    ]

pub choose_tuning_target-All :
    {F : Type 0} (floats : Floats F) (quote : String → String) (P : Fields F → Type 0)
    (opts : TuningOptions F) (e : Fields F) (es : List (Fields F)) (target : Fields F)
    → All P (e ∷ es)
    → choose_tuning_target floats quote (e ∷ es) opts ≡ some (ok target)
    → P target
unfolding choose_tuning_target after_loop
choose_tuning_target-All floats quote P opts e es target all h =
    elim (Option-cases (find_target floats opts (e ∷ es))) [
      | inr (t, hit) ↦
          let same : t ≡ target = cc (rw (hit, choose_tuning_target, after_loop) at h) in
          rw (← same) (find_target-All floats P opts (e ∷ es) t all hit)
      | inl miss ↦ elim (Bool-cases (not (opts.route_id == "") || not (opts.upstream_id == ""))) [
        | inl filtered ↦ cc (rw (miss, filtered, choose_tuning_target, after_loop) at h)
        | inr plain ↦
            let same : e ≡ target = cc (rw (miss, plain, choose_tuning_target, after_loop) at h) in
            rw (← same) (all.0)
      ]
    ]

-- An entry passes the filters if each filter is blank or is the entry's text under that name.
abbrev pub Passes : {F : Type 0} → TuningOptions F → Fields F → Type 0
Passes opts e =
    ((opts.route_id ≡ "") ⊎ (as_string e "route_id" ≡ opts.route_id))
    × ((opts.upstream_id ≡ "") ⊎ (as_string e "upstream_id" ≡ opts.upstream_id))

rejects-Passes :
    {F : Type 0} (floats : Floats F) (opts : TuningOptions F) (e : Fields F)
    → (rejects floats opts e ≡ false) ↔ Passes opts e
unfolding rejects
rejects-Passes floats opts e = ground (
  arith,
  eq_iff opts.route_id "",
  eq_iff opts.upstream_id "",
  eq_iff (as_string e "route_id") opts.route_id,
  eq_iff (as_string e "upstream_id") opts.upstream_id,
)

module _ {F : Type 0} (floats : Floats F) where
  -- The entry passes the filters, and no entry that passes them has a higher 95th percentile.
  pub record IsHighest (opts : TuningOptions F) (entries : List (Fields F)) (target : Fields F)
      : Type 0 where
    pub listed : Any (λ e. target ≡ e) entries
    pub passes : Passes opts target
    pub highest :
        All
          (λ e. Passes opts e → floats.lt (p95_of floats target) (p95_of floats e) ≡ false)
          entries

  module _ (Good : F → Type 0) (order : IsOrder floats.lt Good) where
    -- The numbers that the entries are sorted by can be ordered.
    abbrev pub IsRanked : Fields F → Type 0
    IsRanked e = Good (p95_of floats e)

    comes_before-IsOrder : IsOrder (comes_before floats) IsRanked
    comes_before-IsOrder = record {
      asym = λ a b ga gb h. order.asym (p95_of floats b) (p95_of floats a) gb ga h;
      trans = λ a b c ga gb gc h k.
          order.trans (p95_of floats c) (p95_of floats b) (p95_of floats a) gc gb ga k h;
    }

    not_above_self : (a : F) → Good a → floats.lt a a ≡ false
    not_above_self a good = elim (Bool-cases (floats.lt a a)) [
      | inl less ↦ order.asym a a good good less
      | inr fine ↦ fine
    ]

    All-highest :
        (opts : TuningOptions F) (target : Fields F) (entries : List (Fields F))
        → All (λ e. comes_before floats e target ≡ false) entries
        → All
            (λ e. Passes opts e → floats.lt (p95_of floats target) (p95_of floats e) ≡ false)
            entries
    All-highest opts target [] all = tt
    All-highest opts target (e ∷ entries) (h, all) = (λ r. h, All-highest opts target entries all)

    find_target-IsHighest :
        (opts : TuningOptions F) (entries : List (Fields F)) (target : Fields F)
        → All IsRanked entries
        → IsSorted (comes_before floats) entries
        → find_target floats opts entries ≡ some target
        → IsHighest opts entries target
    unfolding find_target
    find_target-IsHighest opts [] target goods sorted h = cc
    find_target-IsHighest opts (e ∷ entries) target (good, goods) (after, sorted) h =
        elim (Bool-cases (rejects floats opts e)) [
          | inl out ↦
              let found =
                find_target-IsHighest opts entries target goods sorted
                  (rw (out, find_target) at h) in
              record {
                listed = inr found.listed;
                passes = found.passes;
                highest = (λ r. cc ((rejects-Passes floats opts e).1 r, out), found.highest);
              }
          | inr fine ↦
              let same : e ≡ target = cc (rw (fine, find_target) at h) in
              rw (← same) (record {
                listed = inl refl;
                passes = (rejects-Passes floats opts e).0 fine;
                highest =
                    (λ r. not_above_self (p95_of floats e) good, All-highest opts e entries after);
              })
        ]

    find_target-none :
        (opts : TuningOptions F) (entries : List (Fields F))
        → find_target floats opts entries ≡ none
        → All (λ e. ¬ Passes opts e) entries
    unfolding find_target
    find_target-none opts [] h = tt
    find_target-none opts (e ∷ entries) h = elim (Bool-cases (rejects floats opts e)) [
      | inl out ↦ (
        λ p. cc (out, (rejects-Passes floats opts e).1 p),
        find_target-none opts entries (rw (out, find_target) at h),
      )
      | inr fine ↦ cc (rw (fine, find_target) at h)
    ]

    module _ (quote : String → String) where
      -- What the choice among some entries comes to: the highest entry that passes the filters, or,
      -- where there are filters and every entry is rejected, an error. It never panics.
      pub data Chosen (opts : TuningOptions F) (entries : List (Fields F))
          : Option (Result String (Fields F)) → Type 0 where
        found :
            (target : Fields F)
            → IsHighest opts entries target
            → Chosen opts entries (some (ok target))
        refused :
            (e : String)
            → (opts.route_id ≢ "") ⊎ (opts.upstream_id ≢ "")
            → All (λ e. ¬ Passes opts e) entries
            → Chosen opts entries (some (err e))

      unfiltered :
          (opts : TuningOptions F) (e : Fields F)
          → (not (opts.route_id == "") || not (opts.upstream_id == "")) ≡ false
          → Passes opts e
      unfiltered opts e h = ground (arith, eq_iff opts.route_id "", eq_iff opts.upstream_id "")

      choose-Chosen :
          (opts : TuningOptions F) (e : Fields F) (es : List (Fields F))
          → All IsRanked (e ∷ es)
          → IsSorted (comes_before floats) (e ∷ es)
          → Chosen opts (e ∷ es) (choose_tuning_target floats quote (e ∷ es) opts)
      unfolding choose_tuning_target after_loop
      choose-Chosen opts e es goods sorted =
          elim (Option-cases (find_target floats opts (e ∷ es))) [
            | inr (target, hit) ↦
                rw (hit)
                  (found target (find_target-IsHighest opts (e ∷ es) target goods sorted hit))
            | inl miss ↦
                let out = find_target-none opts (e ∷ es) miss in
                elim (Bool-cases (not (opts.route_id == "") || not (opts.upstream_id == ""))) [
                  | inl filtered ↦
                      rw (miss, filtered)
                        (refused _
                          (ground (arith, eq_iff opts.route_id "", eq_iff opts.upstream_id "")) out)
                  | inr plain ↦ absurd (out.0 (unfiltered opts e plain))
                ]
          ]

      -- Among the entries of a call, where there are any and their percentiles can be ordered, the one
      -- to tune is the highest that passes the filters; only where there are filters and none passes
      -- is there an error, and the choice never panics.
      pub choose_tuning_target-Chosen :
          (rearrange : List (Group F) → List (Group F))
          (series : List (PhaseSeries × HistogramSeries F)) (opts : TuningOptions F)
          → let entries = build_latency_entries floats rearrange series opts in
            entries ≢ []
            → All IsRanked (entries_of floats opts (rearrange (aggregate floats opts series [])))
            → Chosen opts entries (choose_tuning_target floats quote entries opts)
      unfolding build_latency_entries
      choose_tuning_target-Chosen rearrange series opts some_entry goods =
          sorted_choice _ some_entry
            (sort_by-All (comes_before floats) IsRanked
              (entries_of floats opts (rearrange (aggregate floats opts series []))) goods)
            (sort_by-IsSorted (comes_before floats) IsRanked comes_before-IsOrder
              (entries_of floats opts (rearrange (aggregate floats opts series []))) goods)
        where
          sorted_choice :
              (entries : List (Fields F))
              → entries ≢ []
              → All IsRanked entries
              → IsSorted (comes_before floats) entries
              → Chosen opts entries (choose_tuning_target floats quote entries opts)
          sorted_choice [] some_entry goods sorted = absurd (some_entry refl)
          sorted_choice (e ∷ es) some_entry goods sorted = choose-Chosen opts e es goods sorted
