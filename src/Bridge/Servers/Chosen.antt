-- ===== src/Bridge/Servers/Chosen.antt =====
-- acp/mcp_servers.go: which servers are sent to the agent.
use go_agent_wrapper.Shared.{
  Bytes, ◌≡◌, refl, Bool, false, not, ◌⊎◌, ◌↔◌, sym, ap, ◌∙◌, inl, inr, List, [], ◌∷◌, map,
  is_empty, if◌then◌else◌, Bool-cases, arith,
}
use go_agent_wrapper.Bridge.Servers.{
  McpServer, WireServer, ServerError, has_seen, not_one, wire_of, is_skipped, sort_out,
  servers_loop, session_mcp_servers,
}

-- A server by itself is in order: it has a name, and either a URL or a command.
abbrev pub IsServer : McpServer → Type 0
IsServer s = (is_empty s.name ≡ false) × (not_one s ≡ false)

-- Every server is in order, and none has a name of the list or of an earlier server.
abbrev pub AreServers : List Bytes → List McpServer → Type 0
AreServers seen [] = Unit {0}
AreServers seen (s ∷ rest) =
    IsServer s × (has_seen s.name seen ≡ false) × AreServers (s.name ∷ seen) rest

-- The servers that a test holds of.
pub only : (McpServer → Bool) → List McpServer → List McpServer
only test [] = []
only test (s ∷ rest) = if test s then s ∷ only test rest else only test rest

-- What is sent, and what is left out, by name, each in the order of the list.
pub chosen : Bool → List McpServer → List WireServer × List Bytes
chosen http_supported servers = (
  map wire_of (only (λ s. not (is_skipped http_supported s)) servers),
  map (λ (s : McpServer). s.name) (only (is_skipped http_supported) servers),
)

inr_injective :
    {r q : List WireServer × List Bytes}
    → ◌≡◌ {A = ServerError ⊎ (List WireServer × List Bytes)} (inr r) (inr q)
    → r ≡ q
inr_injective h = cc

module _ (http_supported : Bool) where
  loop_chosen :
      (seen : List Bytes) (servers : List McpServer)
      → AreServers seen servers
      → servers_loop http_supported seen servers ≡ inr (chosen http_supported servers)
  unfolding servers_loop chosen only
  loop_chosen seen [] h = refl
  loop_chosen seen (s ∷ rest) h =
      let later = loop_chosen (s.name ∷ seen) rest h.2 in
      elim (Bool-cases (is_skipped http_supported s)) [
        | inl out ↦ rw (h.0.0, h.1, h.0.1, later, out) refl
        | inr sent ↦ rw (h.0.0, h.1, h.0.1, later, sent) refl
      ]

  later_lem :
      (s : McpServer) (later : ServerError ⊎ (List WireServer × List Bytes))
      (r : List WireServer × List Bytes)
      → sort_out http_supported s later ≡ inr r
      → (q : List WireServer × List Bytes) × (later ≡ inr q)
  unfolding wire_of
  later_lem s (inl e) r h = let impossible : ⊥ = cc in absurd impossible
  later_lem s (inr q) r h = (q, refl)

  loop_valid :
      (seen : List Bytes) (servers : List McpServer) (r : List WireServer × List Bytes)
      → servers_loop http_supported seen servers ≡ inr r
      → AreServers seen servers
  unfolding servers_loop
  loop_valid seen [] r h = tt
  loop_valid seen (s ∷ rest) r h = elim (Bool-cases (is_empty s.name)) [
    | inl e ↦ ground (arith, e, h)
    | inr named ↦ elim (Bool-cases (has_seen s.name seen)) [
      | inl e ↦ ground (arith, named, e, h)
      | inr new ↦ elim (Bool-cases (not_one s)) [
        | inl e ↦ ground (arith, named, new, e, h)
        | inr one ↦
            let later : sort_out http_supported s (servers_loop http_supported (s.name ∷ seen) rest)
                ≡ inr r =
              ground (arith, named, new, one, h) in
            let (q, found) =
              later_lem s (servers_loop http_supported (s.name ∷ seen) rest) r later in
            ((named, one), new, loop_valid (s.name ∷ seen) rest q found)
      ]
    ]
  ]

  -- SessionMCPServers succeeds exactly where every server has a name, of its own, and either a URL or
  -- a command; and then it sends every server, in the order of the list, but for those with a URL
  -- where the agent takes none, whose names it reports.
  pub session_mcp_servers_iff :
      (servers : List McpServer) (r : List WireServer × List Bytes)
      → (session_mcp_servers servers http_supported ≡ inr r)
        ↔ (AreServers [] servers × (r ≡ chosen http_supported servers))
  unfolding session_mcp_servers
  session_mcp_servers_iff servers r = (
    λ h.
        let valid = loop_valid [] servers r h in
        (valid, inr_injective (sym h ∙ loop_chosen [] servers valid)),
    λ (valid, is). loop_chosen [] servers valid ∙ ap inr (sym is),
  )
