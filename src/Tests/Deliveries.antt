-- ===== src/Tests/Deliveries.antt =====
-- adapters/delivery.go at concrete inputs.
use go_agent_wrapper.Shared.{
  Bytes, bytes, ◌==◌, ◌≡◌, refl, true, none, inl, inr, ◌↔◌, [], ◌∷◌, ◌++◌,
}
use go_agent_wrapper.Shared.Int.{pos}
use go_agent_wrapper.Delivery.Capability
use go_agent_wrapper.Delivery.{
  Evidence, PlanRequest, DeliveryPlan, turn_submitted, plan, target_busy, evidence_of,
  check_request, check_state, supports, validate,
}
use go_agent_wrapper.Delivery.Plan.{IsExecutable, planned, plan_iff}
use go_agent_wrapper.Delivery.Runtime.{is_declared, capabilities_for_runtime_lem}
use go_agent_wrapper.Delivery.Entries.{capabilities_for_runtime, interrupts_turn}

abbrev sending : Evidence
sending = record {
  capability = Capability.send_turn;
  mechanism = bytes "ACP session/prompt";
  evidence = bytes "descriptor";
}

abbrev request : PlanRequest
request = record {
  capability = Capability.send_turn;
  runtime_state = bytes "idle";
  correlation = record {
    session_id = bytes "s";
    provider_session_id = [];
    binding_id = [];
    binding_generation = pos 2;
    delivery_id = [];
    attempt_id = [];
  };
  require_binding_generation = true;
  expected_binding_generation = pos 2;
}

busy_test : plan (sending ∷ []) (record request { runtime_state = bytes "busy" }) ≡ inl target_busy
unfolding plan check_request evidence_of check_state ◌==◌
busy_test = refl

abbrev submitted : DeliveryPlan
submitted = record {
  capability = Capability.send_turn;
  mechanism = bytes "ACP session/prompt";
  correlation = request.correlation;
  receipts = turn_submitted ∷ [];
}

-- At a turn for an idle runtime.
plan_iff_example : (plan (sending ∷ []) request ≡ inr submitted) ↔ (
    (entry : Evidence) × IsExecutable (sending ∷ []) request entry
    × (submitted ≡ planned request entry))
plan_iff_example = plan_iff (sending ∷ []) request submitted

abbrev quoted : Bytes → Bytes
quoted s = 34 ∷ (s ++ 34 ∷ [])

-- At an ACP runtime on stdio.
capabilities_for_runtime_lem_example :
    (validate (
        capabilities_for_runtime quoted
          (bytes "claude")
          (bytes "acp")
          (bytes "stdio")
          (bytes "turn")
          true)
      ≡ none)
    × ((capability : Bytes)
        → supports capability (
            capabilities_for_runtime quoted
              (bytes "claude")
              (bytes "acp")
              (bytes "stdio")
              (bytes "turn")
              true)
          ≡ is_declared capability (interrupts_turn (bytes "turn")) true)
capabilities_for_runtime_lem_example =
    capabilities_for_runtime_lem quoted (bytes "claude") (bytes "acp") (bytes "stdio")
      (bytes "turn") true
