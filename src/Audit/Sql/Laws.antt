-- ===== src/Audit/Sql/Laws.antt =====
-- What the SQL store lists, and how that compares with the store in memory.
use mathlib.Core.List.{append-nil, append_assoc, reverse-reverse}
use lumen_mcp_server.Base.{
  not_pos, to_nat, ◌⊎◌, true, false, some, Bool-cases, inl, inr, ℕ, suc, ◌-◌, ◌≡◌, refl, sym, ap,
  ◌∙◌, ◌↔◌, String, none, List, [], ◌∷◌, ◌++◌, map, reverse, take, drop, length, ℤ, pos, Result, ok,
  err, arith, take-reverse,
}
use lumen_mcp_server.Domain.{Event}
use lumen_mcp_server.Audit.Memory
use lumen_mcp_server.Audit.Memory.{MemoryStore, effective_limit}
use lumen_mcp_server.Audit.Sql.{
  Rows, Database, IsTable, scan_rows, read_rows, after_query, sql_limit, list,
}

scan_rows_all : (out es : List Event) → scan_rows out (map ok es) ≡ ok (out ++ es)
unfolding scan_rows
scan_rows_all out [] = ap ok (sym (append-nil out))
scan_rows_all out (e ∷ es) = scan_rows_all (out ++ e ∷ []) es ∙ ap ok (append_assoc out (e ∷ []) es)

-- How many rows are asked for: as many as a positive limit says, or else 20.
abbrev pub IsAsked : ℤ → ℕ → Type 0
IsAsked limit n =
    ((not_pos limit ≡ false) × (n ≡ to_nat limit)) ⊎ ((not_pos limit ≡ true) × (n ≡ 20))

module _ {D : Type 0} (db : Database D) where
  after_query-eq-ok :
      (n : ℕ) (r : Result String Rows) (out : List Event)
      → after_query db n r ≡ some (ok out)
      → (rows : Rows) × (r ≡ ok rows)
        × (db.can_make n ≡ true)
        × (rows.failure ≡ none)
        × (scan_rows [] rows.scans ≡ ok out)
  unfolding after_query read_rows
  after_query-eq-ok n (err e) out h = cc
  after_query-eq-ok n (ok rows) out h = elim (Bool-cases (db.can_make n)) [
    | inl made ↦ (
      rows,
      refl,
      made,
      ground (arith, rw (made, after_query) at h),
      ground (arith, rw (made, after_query) at h),
    )
    | inr unmade ↦ cc (rw (unmade, after_query) at h)
  ]

  after_query-none :
      (n : ℕ) (r : Result String Rows)
      → (after_query db n r ≡ none) ↔ (((rows : Rows) × (r ≡ ok rows)) × (db.can_make n ≡ false))
  unfolding after_query
  after_query-none n (err e) = (λ h. cc h, λ ((rows, h), unmade). cc h)
  after_query-none n (ok rows) = elim (Bool-cases (db.can_make n)) [
    | inl made ↦ (λ h. cc (rw (made, after_query) at h), λ (some_rows, unmade). cc (made, unmade))
    | inr unmade ↦ (λ h. ((rows, refl), unmade), λ h. rw (after_query, unmade) refl)
  ]

module _ {D : Type 0} (db : Database D) (log : D → List Event) (table : IsTable db log) where
  -- What a listing shows that asks for n rows, and when it does.
  abbrev pub Listed : D → ℕ → List Event → Type 0
  Listed d n out =
      (rows : Rows) × ((db.select_rows d n).0 ≡ ok rows)
      × (db.can_make n ≡ true)
      × (rows.failure ≡ none)
      × (out ≡ take n (reverse (log d)))

  abbrev pub Panics : D → ℕ → Type 0
  Panics d n = ((rows : Rows) × ((db.select_rows d n).0 ≡ ok rows)) × (db.can_make n ≡ false)

  pub list_shown :
      (d : D) (limit : ℤ) (out : List Event)
      → (list db d limit).0 ≡ some (ok out)
      → Listed d (sql_limit limit) out
  unfolding list
  list_shown d limit out h =
      let (rows, found, made, clean, scanned) =
        after_query-eq-ok db (sql_limit limit) (db.select_rows d (sql_limit limit)).0 out h in
      let all = table.selected d (sql_limit limit) rows found clean in
      (
        rows,
        found,
        made,
        clean,
        cc (scanned, all, scan_rows_all [] (take (sql_limit limit) (reverse (log d)))),
      )

  list_complete :
      (d : D) (limit : ℤ) (out : List Event)
      → Listed d (sql_limit limit) out
      → (list db d limit).0 ≡ some (ok out)
  unfolding list after_query read_rows
  list_complete d limit out (rows, found, made, clean, same) =
      let all = table.selected d (sql_limit limit) rows found clean in
      rw (list, found, after_query, made, read_rows)
        (ground
          (arith, clean, all, same, scan_rows_all [] (take (sql_limit limit) (reverse (log d)))))

  list_iff :
      (d : D) (limit : ℤ)
      → ((out : List Event)
          → ((list db d limit).0 ≡ some (ok out)) ↔ Listed d (sql_limit limit) out)
        × (((list db d limit).0 ≡ none) ↔ Panics d (sql_limit limit))
        × (log (list db d limit).1 ≡ log d)
  unfolding list
  list_iff d limit = (
    λ out. (list_shown d limit out, list_complete d limit out),
    after_query-none db (sql_limit limit) (db.select_rows d (sql_limit limit)).0,
    table.unchanged d (sql_limit limit),
  )

  sql_limit-IsAsked : (limit : ℤ) (n : ℕ) → IsAsked limit n → sql_limit limit ≡ n
  sql_limit-IsAsked limit n asked = ground (arith, asked)

  -- Where the database keeps its rows as a table does, a listing asks for as many rows as a positive
  -- limit says, or 20. It succeeds exactly if that query does, a slice of that capacity can be made and
  -- the rows end without an error; it then shows the newest events first, as many as there are up to
  -- that number. It panics exactly if the query succeeds and the slice cannot be made. Either way the
  -- log stays as it was.
  pub list-ok_iff :
      (d : D) (limit : ℤ) (n : ℕ)
      → IsAsked limit n
      → ((out : List Event) → ((list db d limit).0 ≡ some (ok out)) ↔ Listed d n out)
        × (((list db d limit).0 ≡ none) ↔ Panics d n)
        × (log (list db d limit).1 ≡ log d)
  list-ok_iff d limit n asked = rw (← sql_limit-IsAsked limit n asked) (list_iff d limit)

  -- Over the same events, and with a positive limit, the store in memory lists what the SQL store
  -- lists, in the opposite order.
  pub list-eq-reverse :
      (d : D) (k : ℕ) (out : List Event)
      → (list db d (pos (suc k))).0 ≡ some (ok out)
      → (Memory.list (record { events = log d }) (pos (suc k))).0 ≡ ok (reverse out)
  unfolding Memory.list
  list-eq-reverse d k out h =
      let (_, _, _, _, same) = list_shown d (pos (suc k)) out h in
      let n : ℕ = length (log d) in
      let start : n - effective_limit (pos (suc k)) n ≡ n - suc k = ground arith in
      let back : reverse out ≡ drop (n - suc k) (log d) =
        ap reverse (same ∙ take-reverse (suc k) (log d))
        ∙ reverse-reverse (drop (n - suc k) (log d)) in
      ap ok (ap (λ j. drop j (log d)) start ∙ sym back)
