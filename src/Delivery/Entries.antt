-- ===== src/Delivery/Entries.antt =====
-- adapters/delivery.go: what DeliveryCapabilitiesForRuntime declares for a runtime. `quote` is fmt's
-- %q on a string.
use go_agent_wrapper.Shared.{
  Bytes, bytes, ◌==◌, Bool, ◌&&◌, ◌||◌, List, [], ◌∷◌, ◌++◌, is_empty, if◌then◌else◌,
}
use go_agent_wrapper.Delivery.Capability
use go_agent_wrapper.Delivery.{Evidence, new_capabilities}

unfoldable pub delivery_mechanism : Bytes → Bytes → Bytes
unfolding ◌==◌
delivery_mechanism protocol transport =
    if protocol == bytes "acp"
    then bytes "ACP session/prompt"
    else if protocol == bytes "claude-stream-json"
    then bytes "Claude stream-json stdin turn"
    else if protocol == bytes "codex-app-server"
    then bytes "Codex app-server JSON-RPC turn"
    else if protocol == bytes "opencode-native"
    then bytes "OpenCode HTTP/SSE turn"
    else if protocol == bytes "pty-raw" && transport == bytes "pty"
    then bytes "PTY stdin turn"
    else if is_empty protocol && is_empty transport
    then bytes "agentsessions adapter subprocess turn"
    else bytes "agentsessions Session.SendInput"

unfoldable pub delivery_evidence : (Bytes → Bytes) → Bytes → Bytes → Bytes → Bytes
delivery_evidence quote provider protocol transport =
    (if is_empty provider then bytes "provider" else provider)
    ++ (bytes " descriptor maps protocol="
        ++ (quote protocol
            ++ (bytes " transport="
                ++ (quote transport ++ bytes " to wrapper.SendInput/agentsessions delivery"))))

unfoldable pub turn_cancel_mechanism : Bytes → Bytes × Bytes
unfolding ◌==◌
turn_cancel_mechanism protocol =
    if protocol == bytes "claude-stream-json"
    then (
      bytes "stream-json control_request interrupt / wrapper.CancelTurn",
      bytes
          "agentsessions streaming-stdio TurnInterrupter: the turn fails with reason interrupted and the process keeps running",
    )
    else if protocol == bytes "codex-app-server"
    then (
      bytes "JSON-RPC turn/interrupt / wrapper.CancelTurn",
      bytes
          "agentsessions jsonrpc-stdio TurnInterrupter interrupts the open turn; Codex reports turn/completed with status interrupted",
    )
    else if protocol == bytes "opencode-native"
    then (
      bytes "POST /session/{id}/abort / wrapper.CancelTurn",
      bytes "agentsessions serve-http TurnInterrupter aborts the turn; the session stays",
    )
    else (
      bytes "acp.Session.Cancel / wrapper.CancelTurn",
      bytes "ACP managed session sends session/cancel without closing the session",
    )

-- A genuine abort of a turn.
unfoldable pub interrupts_turn : Bytes → Bool
unfolding ◌==◌
interrupts_turn interrupt = interrupt == bytes "turn" || interrupt == bytes "steer"

abbrev pub base_entries : Bytes → Bytes → List Evidence
base_entries mechanism evidence =
    record { capability = Capability.send_turn; mechanism = mechanism; evidence = evidence }
    ∷ record {
      capability = Capability.lifecycle_stop;
      mechanism = bytes "agentsessions.Session.Stop / wrapper.Stop";
      evidence =
          bytes
            "existing wrapper lifecycle control path emits interrupt.requested/interrupt.acknowledged and calls the runtime Stop implementation";
    }
    ∷ []

abbrev pub interrupt_entry : Bytes → Evidence
interrupt_entry interrupt = record {
  capability = Capability.interrupt;
  mechanism = bytes "provider-native mid-turn abort before lifecycle teardown";
  evidence = bytes "descriptor Interrupt capability is verified as " ++ interrupt;
}

abbrev pub cancel_entry : Bytes × Bytes → Evidence
cancel_entry (mechanism, evidence) = record {
  capability = Capability.cancel_turn;
  mechanism = mechanism;
  evidence = evidence;
}

-- The entries before NewDeliveryCapabilities.
abbrev pub runtime_entries : Bytes → Bytes → Bool → Bytes → Bool → Bytes × Bytes → List Evidence
runtime_entries mechanism evidence interrupts interrupt turn_scoped_cancel cancel =
    base_entries mechanism evidence
    ++ ((if interrupts then interrupt_entry interrupt ∷ [] else [])
        ++ (if turn_scoped_cancel then cancel_entry cancel ∷ [] else []))

unfoldable pub capabilities_for_runtime :
    (Bytes → Bytes) → Bytes → Bytes → Bytes → Bytes → Bool → List Evidence
unfolding delivery_mechanism delivery_evidence turn_cancel_mechanism interrupts_turn
    new_capabilities
capabilities_for_runtime quote provider protocol transport interrupt turn_scoped_cancel =
    new_capabilities (
      runtime_entries (delivery_mechanism protocol transport)
        (delivery_evidence quote provider protocol transport) (interrupts_turn interrupt) interrupt
        turn_scoped_cancel (turn_cancel_mechanism protocol))
