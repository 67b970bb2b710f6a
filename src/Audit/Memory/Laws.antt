-- ===== src/Audit/Memory/Laws.antt =====
-- What a listing of the store in memory shows.
use lumen_mcp_server.Base.{
  ℕ, zero, suc, ◌-◌, ◌≤◌, ◌≡◌, refl, sym, ap, ◌∙◌, ◌⊎◌, inl, inr, false, List, [], ◌∷◌, ◌++◌, ℤ,
  pos, negsuc, not_pos, to_nat, ok, length, drop, take, arith, length-append, length-drop,
  drop-append, take-append-drop,
}
use lumen_mcp_server.Domain.{Event}
use lumen_mcp_server.Audit.Memory.{MemoryStore, append, list, effective_limit}

-- A listing is the log's end: what is left out is older than all of it. A positive limit bounds it,
-- and something is left out only if the limit is reached.
pub record IsRecent (log : List Event) (limit : ℤ) (out : List Event) : Type 0 where
  pub older : List Event
  pub whole : log ≡ older ++ out
  pub bounded : not_pos limit ≡ false → length out ≤ to_nat limit
  pub full : (older ≡ []) ⊎ (limit ≡ pos (length out))

effective_limit-le : (limit : ℤ) (n : ℕ) → effective_limit limit n ≤ n
effective_limit-le (pos zero) n = ground arith
effective_limit-le (pos (suc k)) n = ground arith
effective_limit-le (negsuc k) n = ground arith

effective_limit-bounded :
    (limit : ℤ) (n : ℕ) → not_pos limit ≡ false → effective_limit limit n ≤ to_nat limit
effective_limit-bounded (pos zero) n h = ground arith
effective_limit-bounded (pos (suc k)) n h = ground arith
effective_limit-bounded (negsuc k) n h = ground arith

effective_limit-full :
    (limit : ℤ) (n : ℕ) → (effective_limit limit n ≡ n) ⊎ (limit ≡ pos (effective_limit limit n))
effective_limit-full (pos zero) n = ground arith
effective_limit-full (pos (suc k)) n = ground arith
effective_limit-full (negsuc k) n = ground arith

-- How many events a listing shows.
pub length-listed :
    (log : List Event) (limit : ℤ)
    → length (drop (length log - effective_limit limit (length log)) log)
      ≡ effective_limit limit (length log)
length-listed log limit =
    let n : ℕ = length log in
    omega (arith, length-drop (n - effective_limit limit n) log, effective_limit-le limit n)

-- A listing succeeds, changes nothing, and shows the most recent events in the order in which they
-- were appended: all of them if the limit is not positive, else as many as there are up to the limit.
pub list-IsRecent :
    (s : MemoryStore) (limit : ℤ)
    → (out : List Event) × (list s limit ≡ (ok out, s)) × IsRecent s.events limit out
unfolding list
list-IsRecent s limit =
    let n : ℕ = length s.events in
    let k : ℕ = effective_limit limit n in
    let out : List Event = drop (n - k) s.events in
    (
      out,
      refl,
      record {
        older = take (n - k) s.events;
        whole = sym (take-append-drop (n - k) s.events);
        bounded =
            λ h. omega (arith, length-listed s.events limit, effective_limit-bounded limit n h);
        full = elim (effective_limit-full limit n) [
          | inl all ↦
              let none_left : n - k ≡ 0 = omega arith in inl (ap (λ j. take j s.events) none_left)
          | inr cut ↦ inr (cut ∙ ap pos (sym (length-listed s.events limit)))
        ];
      },
    )

same_start :
    (log : List Event) (e : Event) (k : ℕ)
    → length (log ++ e ∷ []) - effective_limit (pos (suc (suc k))) (length (log ++ e ∷ []))
      ≡ length log - effective_limit (pos (suc k)) (length log)
same_start log e k = rw length-append (ground arith)

-- After an append a listing of one event more ends with the new event, behind what the listing was.
pub list-append :
    (s : MemoryStore) (e : Event) (k : ℕ) (out : List Event)
    → list s (pos (suc k)) ≡ (ok out, s)
    → (list (append s e).1 (pos (suc (suc k)))).0 ≡ ok (out ++ e ∷ [])
unfolding list append
list-append s e k out h = rw (same_start s.events e k) (
    rw
      (drop-append (length s.events - effective_limit (pos (suc k)) (length s.events)) s.events
        (e ∷ []) (omega arith))
      (ground arith))
