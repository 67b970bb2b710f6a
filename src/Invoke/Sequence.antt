-- ===== src/Invoke/Sequence.antt =====
-- A run of calls, one after another, over the store in memory.
use mathlib.Core.List.{append-nil, append_assoc}
use lumen_mcp_server.Base.{refl, ap, ◌∙◌, sym, ℕ, String, ◌≡◌, List, [], ◌∷◌, ◌++◌, map}
use lumen_mcp_server.Domain.{Event}
use lumen_mcp_server.Ports.{TokenVerifier, GatewayAdminClient}
use lumen_mcp_server.Audit.Memory
use lumen_mcp_server.Audit.Memory.{MemoryStore, memory_store}
use lumen_mcp_server.Authorize
use lumen_mcp_server.Invoke.{Service, State, invoke_tool}
use lumen_mcp_server.Invoke.Audited.{invoke_tool-audit}

pub record Call (Args : Type 0) : Type 0 where
  pub now : ℕ
  pub bearer : String
  pub tool_name : String
  pub args : Args
  pub trace_id : String

-- What an event has from its call.
abbrev pub summary : Event → ℕ × String × String
summary e = (e.at, e.tool, e.trace_id)

abbrev pub call_summary : {Args : Type 0} → Call Args → ℕ × String × String
call_summary c = (c.now, c.tool_name, c.trace_id)

module _ {V G Args Payload : Type 0} (verifier : TokenVerifier V) (authorize : Authorize.Service)
    (gateway : GatewayAdminClient G Args Payload) where
  abbrev pub service : Service V G MemoryStore Args Payload
  service = record {
    verifier = verifier;
    authorize = authorize;
    gateway = gateway;
    audit = memory_store;
  }

  pub serve : List (Call Args) → State V G MemoryStore → State V G MemoryStore
  serve [] st = st
  serve (c ∷ cs) st =
      serve cs (invoke_tool service c.now c.tool_name c.args c.trace_id c.bearer st).1

  invoke_tool-added :
      (c : Call Args) (st : State V G MemoryStore)
      → (event : Event) × ((invoke_tool service c.now c.tool_name c.args c.trace_id c.bearer
            st).1.audit.events
          ≡ st.audit.events ++ event ∷ [])
        × (summary event ≡ call_summary c)
  unfolding memory_store Memory.append
  invoke_tool-added c st = (
    _,
    ap (λ a. a.events) (invoke_tool-audit service c.now c.tool_name c.args c.trace_id c.bearer st),
    refl,
  )

  -- A run of calls leaves the events that the log held as they are, and adds one event for each call,
  -- allowed or not, in the order of the calls and with their times, tools and traces.
  pub serve-log :
      (cs : List (Call Args)) (st : State V G MemoryStore)
      → (added : List Event) × ((serve cs st).audit.events ≡ st.audit.events ++ added)
        × (map summary added ≡ map call_summary cs)
  unfolding serve
  serve-log [] st = ([], sym (append-nil st.audit.events), refl)
  serve-log (c ∷ cs) st =
      let next : State V G MemoryStore =
        (invoke_tool service c.now c.tool_name c.args c.trace_id c.bearer st).1 in
      let (event, kept, summed) = invoke_tool-added c st in
      let (added, grown, same) = serve-log cs next in
      (
        event ∷ added,
        grown ∙ ap (λ l. l ++ added) kept ∙ append_assoc st.audit.events (event ∷ []) added,
        cc (summed, same),
      )
