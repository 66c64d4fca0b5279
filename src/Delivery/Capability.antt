-- ===== src/Delivery/Capability.antt =====
-- adapters/delivery.go: the values of DeliveryCapability.
use go_agent_wrapper.Shared.{Bytes, bytes}

abbrev pub queue : Bytes
queue = bytes "queue"

abbrev pub send_turn : Bytes
send_turn = bytes "send_turn"

abbrev pub between_tool_calls : Bytes
between_tool_calls = bytes "between_tool_calls"

abbrev pub interrupt : Bytes
interrupt = bytes "interrupt"

abbrev pub cancel_turn : Bytes
cancel_turn = bytes "cancel_turn"

abbrev pub lifecycle_stop : Bytes
lifecycle_stop = bytes "lifecycle_stop"
