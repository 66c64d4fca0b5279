-- ===== src/Lifecycle/Outcome.antt =====
-- acp/lifecycle.go: the states, outcomes and errors of a managed session. Errors of package context
-- and of the client are told apart by what errors.Is says of them.
use go_agent_wrapper.Shared.{
  Bytes, bytes, ◌==◌, to_lower, has_substring, Bool, ◌||◌, Option, none, some, [], ◌++◌, is_empty,
  if◌then◌else◌,
}

pub data State : Type 0 where
  launching ready processing closing closed failed : State

-- OutcomeKind; the empty one is `none` of an option.
pub data Outcome : Type 0 where
  ended disconnected child_exit malformed_stream canceled : Outcome

pub record LifecycleError : Type 0 where
  pub kind : Outcome
  pub operation : Bytes
  pub diagnostic : Bytes

abbrev pub outcome_text : Outcome → Bytes
outcome_text ended = bytes "closed"
outcome_text disconnected = bytes "disconnected"
outcome_text child_exit = bytes "child_exit"
outcome_text malformed_stream = bytes "malformed_stream"
outcome_text canceled = bytes "canceled"

-- LifecycleError.Error
unfoldable pub error_message : Option LifecycleError → Bytes
error_message none = bytes "<nil>"
error_message (some e) =
    bytes "acp: "
    ++ outcome_text e.kind
    ++ (if is_empty e.operation then [] else bytes " during " ++ e.operation)
    ++ (if is_empty e.diagnostic then [] else bytes ": " ++ e.diagnostic)

-- An error that a client's method returns: whether it is a cancellation or a deadline of package
-- context, and its text.
pub record ClientError : Type 0 where
  pub is_context : Bool
  pub message : Bytes

-- What a method of a session or of the manager returns as its error.
pub data Failure : Type 0 where
  not_live : Failure
  not_live_id duplicate_session : Bytes → Failure
  lifecycle : LifecycleError → Failure
  wrapped : Bytes → ClientError → Failure
  plain : ClientError → Failure
  invalid : Bytes → Failure

-- normalizeOperationError
unfoldable pub normalize_operation_error : Bytes → Option ClientError → Option Failure
normalize_operation_error operation none = none
normalize_operation_error operation (some e) = some (
    if e.is_context
    then lifecycle (record { kind = canceled; operation = operation; diagnostic = [] })
    else wrapped operation e)

-- classifyTurnCompletion, of the decoded `stop_reason`: strings.EqualFold with an ASCII word
-- without k or s is equality of the lower cases.
unfoldable pub classify_turn_completion : Bytes → Option Outcome
unfolding to_lower ◌==◌
classify_turn_completion stop_reason =
    if to_lower stop_reason == bytes "cancelled" || to_lower stop_reason == bytes "canceled"
    then some canceled
    else none

-- classifyTurnFailure, of the decoded `error`
unfoldable pub classify_turn_failure : Bytes → Option Outcome
unfolding to_lower has_substring
classify_turn_failure error =
    if has_substring (to_lower error) (bytes "cancel") then some canceled else none
