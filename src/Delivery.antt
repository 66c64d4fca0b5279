-- ===== src/Delivery.antt =====
-- adapters/delivery.go: which delivery operations a runtime advertises, and the plan for a request.
-- Capabilities, protocols and transports are the strings that the source declares.
pub mod Capability
pub mod Plan
pub mod Entries
pub mod Runtime
use go_agent_wrapper.Shared.{
  Bytes, bytes, ◌==◌, Bool, true, false, not, ◌&&◌, ◌||◌, Option, none, some, ◌⊎◌, inl, inr, List,
  [], ◌∷◌, ◌++◌, is_empty, if◌then◌else◌, is_some,
}
use go_agent_wrapper.Delivery.Capability
use go_agent_wrapper.Shared.Int.{ℤ, is_negative, int_eq}

pub record Evidence : Type 0 where
  pub capability : Bytes
  pub mechanism : Bytes
  pub evidence : Bytes

-- The loop of NewDeliveryCapabilities, with the capabilities seen so far.
unfoldable pub has_seen : Bytes → List Bytes → Bool
unfolding ◌==◌
has_seen capability [] = false
has_seen capability (c ∷ seen) = c == capability || has_seen capability seen

unfoldable pub collect : List Bytes → List Evidence → List Evidence
unfolding has_seen
collect seen [] = []
collect seen (entry ∷ rest) =
    let skipped = collect seen rest in
    let kept = collect (entry.capability ∷ seen) rest in
    if is_empty entry.capability
    then skipped
    else if has_seen entry.capability seen
    then skipped
    else entry ∷ kept

unfoldable pub new_capabilities : List Evidence → List Evidence
new_capabilities entries = collect [] entries

-- Evidence
unfoldable pub evidence_of : Bytes → List Evidence → Option Evidence
unfolding ◌==◌
evidence_of capability [] = none
evidence_of capability (entry ∷ rest) =
    if entry.capability == capability then some entry else evidence_of capability rest

unfoldable pub supports : Bytes → List Evidence → Bool
unfolding evidence_of
supports capability supported = is_some (evidence_of capability supported)

pub data Reason : Type 0 where
  unsupported missing_evidence : Reason

pub data DeliveryError : Type 0 where
  capability_error : Bytes → Reason → DeliveryError
  capability_required negative_generation : DeliveryError
  route_stale : ℤ → ℤ → DeliveryError
  target_offline target_busy : DeliveryError
  unknown_state : Bytes → DeliveryError

abbrev pub lacks_evidence : Evidence → Bool
lacks_evidence entry = is_empty entry.mechanism || is_empty entry.evidence

-- Require
abbrev pub require_found : Bytes → Option Evidence → Option DeliveryError
require_found capability none = some (capability_error capability unsupported)
require_found capability (some entry) =
    if lacks_evidence entry then some (capability_error capability missing_evidence) else none

unfoldable pub require : Bytes → List Evidence → Option DeliveryError
unfolding evidence_of
require capability supported = require_found capability (evidence_of capability supported)

-- Validate
unfoldable pub validate : List Evidence → Option DeliveryError
validate [] = none
validate (entry ∷ rest) =
    if is_empty entry.capability || lacks_evidence entry
    then some (capability_error entry.capability missing_evidence)
    else validate rest

pub record Correlation : Type 0 where
  pub session_id : Bytes
  pub provider_session_id : Bytes
  pub binding_id : Bytes
  pub binding_generation : ℤ
  pub delivery_id : Bytes
  pub attempt_id : Bytes

pub record PlanRequest : Type 0 where
  pub capability : Bytes
  pub runtime_state : Bytes
  pub correlation : Correlation
  pub require_binding_generation : Bool
  pub expected_binding_generation : ℤ

pub data Receipt : Type 0 where
  turn_submitted interrupt_requested turn_cancel_requested lifecycle_stop_issued : Receipt

pub record DeliveryPlan : Type 0 where
  pub capability : Bytes
  pub mechanism : Bytes
  pub correlation : Correlation
  pub receipts : List Receipt

unfoldable pub delivery_receipts : Bytes → List Receipt
unfolding ◌==◌
delivery_receipts capability =
    if capability == Capability.send_turn
    then turn_submitted ∷ []
    else if capability == Capability.interrupt
    then interrupt_requested ∷ []
    else if capability == Capability.cancel_turn
    then turn_cancel_requested ∷ []
    else if capability == Capability.lifecycle_stop
    then lifecycle_stop_issued ∷ []
    else []

-- The switch of Plan on the runtime's state: an error, or none.
unfoldable pub check_state : Bytes → Bytes → Option DeliveryError
unfolding ◌==◌
check_state state capability =
    if state == bytes "offline"
    then some target_offline
    else if state == bytes "busy"
    then if capability == Capability.send_turn then some target_busy else none
    else if state == bytes "idle" || is_empty state
    then none
    else some (unknown_state state)

-- The guards of Plan before it looks for the capability.
unfoldable pub check_request : PlanRequest → Option DeliveryError
check_request req =
    if is_empty req.capability
    then some capability_required
    else if is_negative req.correlation.binding_generation
    then some negative_generation
    else if req.require_binding_generation
        && not (int_eq req.correlation.binding_generation req.expected_binding_generation)
    then some (route_stale req.expected_binding_generation req.correlation.binding_generation)
    else none

abbrev pub plan_found : PlanRequest → Option Evidence → DeliveryError ⊎ DeliveryPlan
plan_found req none = inl (capability_error req.capability unsupported)
plan_found req (some entry) =
    if lacks_evidence entry
    then inl (capability_error req.capability missing_evidence)
    else elim (check_state req.runtime_state req.capability) [
      | some e ↦ inl e
      | none ↦ inr (record {
        capability = req.capability;
        mechanism = entry.mechanism;
        correlation = req.correlation;
        receipts = delivery_receipts req.capability;
      })
    ]

abbrev pub plan_checked :
    List Evidence → PlanRequest → Option DeliveryError → DeliveryError ⊎ DeliveryPlan
plan_checked supported req (some e) = inl e
plan_checked supported req none = plan_found req (evidence_of req.capability supported)

-- DeliveryCapabilities.Plan
unfoldable pub plan : List Evidence → PlanRequest → DeliveryError ⊎ DeliveryPlan
plan supported req = plan_checked supported req (check_request req)
