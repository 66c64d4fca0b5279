-- ===== src/Turnoutput/Feed.antt =====
-- turnoutput/feed.go: the three feeds of a Reducer.
--
-- A JSON payload is given as what its decoding yields: the fields of the struct that the source
-- declares for it, `none` where decoding fails. A raw question input is `none` where it is empty
-- or is no such object. Constructors stand for the event types of the libraries.
pub mod Payload
pub mod Kept
pub mod History
pub mod Late
use go_agent_wrapper.Shared.{
  Bytes, bytes, ◌==◌, is_empty, trim_space, to_lower, Bool, true, false, not, ◌&&◌, ◌||◌, Option,
  none, some, List, [], ◌∷◌, lookup, if◌then◌else◌,
}
use go_agent_wrapper.Turnoutput.Output.{Output}
use go_agent_wrapper.Turnoutput.Turn.{Turn}
use go_agent_wrapper.Turnoutput.Blocks.{add_delta, boundary}
use go_agent_wrapper.Turnoutput.Signals.{
  contains, raise_question, raise_requested_question, raise_approval, request, resolve,
}
use go_agent_wrapper.Turnoutput.Tools.{add_tool, tool_result}
use go_agent_wrapper.Turnoutput.Reducer.{Reducer, or_if_empty, current, body, in_body, note_stop}
use go_agent_wrapper.Turnoutput.Closing.{end_turn, finish}
use go_agent_wrapper.Turnoutput.Report.{StopReasons, Terminal, no_terminal, reason_process_exited}
use Payload.{
  QuestionInput, DeltaPayload, ToolUsePayload, ToolResultPayload, RequestedPayload, ResolvedPayload,
  DeniedPayload, TurnPayload, EventKind, turn_started, agent_delta, tool_use_event,
  tool_result_event, subagent_spawn, permission_requested, permission_resolved, permission_denied,
  turn_completed, turn_failed, process_exited, other, Event, ProviderEvent, StreamEvent, is_thought,
  is_final_phase, truthy, id_key, is_question_method, question_text, describe_request,
  permission_denied_text, call_of, outcome_of,
}

-- What the events of a turn's body do to the turn.
unfoldable pub on_delta : Option DeltaPayload → Turn → Turn
unfolding is_thought is_final_phase truthy
on_delta none t = t
on_delta (some p) t =
    if is_thought p.phase || truthy p.thinking
    then t
    else add_delta (or_if_empty p.content p.text) p.block_id (is_final_phase p.phase) t

-- toolUse: the names of `questions` are the question tools.
unfoldable pub use_tool : List Bytes → Bytes → Bytes → Option QuestionInput → Turn → Turn
unfolding question_text
use_tool questions id name input t =
    if contains questions (to_lower (trim_space name))
    then raise_question (question_text input) id (add_tool id true t)
    else add_tool id false t

unfoldable pub on_tool_use : List Bytes → Option ToolUsePayload → Turn → Turn
unfolding use_tool call_of
on_tool_use questions none t = boundary t
on_tool_use questions (some p) t =
    let c = call_of p in use_tool questions c.id (or_if_empty c.name p.title) c.input (boundary t)

unfoldable pub on_tool_result : Option ToolResultPayload → Turn → Turn
unfolding outcome_of
on_tool_result none t = boundary t
on_tool_result (some p) t = elim (outcome_of p) [
  | none ↦ boundary t
  | some (id, is_error) ↦ tool_result id is_error (boundary t)
]

unfoldable pub on_requested : Bytes → Option RequestedPayload → Turn → Turn
unfolding is_question_method question_text describe_request id_key
on_requested event_id none t = boundary t
on_requested event_id (some p) t =
    if is_question_method p.method
    then raise_requested_question (question_text p.question) (boundary t)
    else request (event_id ∷ id_key p.request_id ∷ [])
        (describe_request (bytes "Approval requested: ") p.method p.params) (boundary t)

unfoldable pub on_resolved : Bytes → Option ResolvedPayload → Turn → Turn
unfolding is_question_method describe_request id_key
on_resolved parent_id none t = boundary t
on_resolved parent_id (some p) t =
    if is_question_method p.method
    then boundary t
    else resolve (parent_id ∷ id_key p.request_id ∷ [])
        (elim p.allowed [ none ↦ false | some allowed ↦ allowed ])
        (describe_request (bytes "Approval refused: ") p.method none) (boundary t)

unfoldable pub on_denied : DeniedPayload → Turn → Turn
unfolding permission_denied_text
on_denied p t =
    raise_approval (permission_denied_text p.action p.display_name) p.tool_use_id (boundary t)

abbrev pub terminal_of : Bool → TurnPayload → Terminal
terminal_of failed p = record {
  failed = failed;
  err_text = or_if_empty p.error p.message;
  cut = false;
  reason = p.reason;
  stop_reason = p.stop_reason;
  text = p.text;
}

-- The first event gives the session and the runtime where the configuration gave none.
abbrev pub identify : Event → Reducer → Reducer
identify ev r = record r {
  session_id = or_if_empty r.session_id ev.session_id;
  runtime = or_if_empty r.runtime ev.provider;
}

abbrev pub error_text : Bytes → Option Bytes → Bytes
error_text [] (some err) = err
error_text message _ = message

abbrev pub silent : Reducer → Option Output × Reducer
silent r = (none, r)

-- Done and Error
abbrev pub done_terminal : Bytes → Bytes → Terminal
done_terminal stop text = record no_terminal { stop_reason = stop; text = text }

abbrev pub error_terminal : Bytes → Terminal
error_terminal error = record no_terminal { failed = true; err_text = error }

-- The terminal event that the exit of the process stands for.
abbrev pub exit_terminal : Bytes → Terminal
exit_terminal error = record no_terminal {
  failed = true;
  reason = reason_process_exited;
  err_text = error;
}

module _ (reasons : StopReasons) where
  unfoldable pub on_exit : Bytes → Reducer → Option Output × Reducer
  unfolding current finish
  on_exit error r = elim (current r) [
    | none ↦ (none, r)
    | some k ↦ elim (lookup k r.open_turns) [
      | none ↦ (none, r)
      | some t ↦ finish reasons t (exit_terminal error) r
    ]
  ]

  -- The switch of Observe.
  unfoldable pub dispatch : EventKind → Event → Reducer → Option Output × Reducer
  unfolding in_body on_exit end_turn
  dispatch turn_started ev r =
      if is_empty ev.turn_id then (none, r) else (none, (body ev.turn_id r).1)
  dispatch (agent_delta p) ev r = silent (in_body ev.turn_id (on_delta p) r)
  dispatch (tool_use_event p) ev r = silent (in_body ev.turn_id (on_tool_use r.questions p) r)
  dispatch (tool_result_event p) ev r = silent (in_body ev.turn_id (on_tool_result p) r)
  dispatch subagent_spawn ev r = silent (in_body ev.turn_id boundary r)
  dispatch (permission_requested p) ev r = silent (in_body ev.turn_id (on_requested ev.id p) r)
  dispatch (permission_resolved p) ev r = silent (in_body ev.turn_id (on_resolved ev.parent_id p) r)
  dispatch (permission_denied p) ev r = silent (in_body ev.turn_id (on_denied p) r)
  dispatch (turn_completed p) ev r = end_turn reasons ev.turn_id (terminal_of false p) r
  dispatch (turn_failed p) ev r = end_turn reasons ev.turn_id (terminal_of true p) r
  dispatch (process_exited error) ev r = on_exit error r
  dispatch other ev r = (none, r)

  -- Observe
  unfoldable pub observe : Event → Reducer → Option Output × Reducer
  unfolding dispatch
  observe ev r = dispatch ev.kind ev (identify ev r)

  -- ObserveProvider
  unfoldable pub observe_provider : ProviderEvent → Reducer → Option Output × Reducer
  unfolding in_body end_turn is_thought is_final_phase permission_denied_text
  observe_provider (ProviderEvent.delta text block_id phase) r = silent (
      in_body []
        (λ t. if is_thought phase then t else add_delta text block_id (is_final_phase phase) t) r)
  observe_provider ProviderEvent.thinking r = silent (in_body [] (λ t. t) r)
  observe_provider (ProviderEvent.tool_use id name input) r =
      silent (in_body [] (λ t. use_tool r.questions id name input (boundary t)) r)
  observe_provider (ProviderEvent.tool_result id is_error) r =
      silent (in_body [] (λ t. tool_result id is_error (boundary t)) r)
  observe_provider ProviderEvent.subagent_spawn r = silent (in_body [] boundary r)
  observe_provider (ProviderEvent.usage stop) r = silent (note_stop stop r)
  observe_provider (ProviderEvent.permission_denied action display_name tool_use_id) r = silent (
      in_body []
        (λ t. raise_approval (permission_denied_text action display_name) tool_use_id (boundary t))
        r)
  observe_provider (ProviderEvent.done stop text) r =
      end_turn reasons [] (done_terminal stop text) r
  observe_provider (ProviderEvent.error message err) r =
      end_turn reasons [] (error_terminal (error_text message err)) r

  -- ObserveStream; `normalize` is llmtypes.NormalizeStopReason.
  unfoldable pub observe_stream : (Bytes → Bytes) → StreamEvent → Reducer → Option Output × Reducer
  unfolding in_body end_turn is_thought is_final_phase
  observe_stream normalize (StreamEvent.delta content block_id phase) r = silent (
      in_body []
        (λ t. if is_thought phase then t else add_delta content block_id (is_final_phase phase) t)
        r)
  observe_stream normalize StreamEvent.thinking r = silent (in_body [] (λ t. t) r)
  observe_stream normalize (StreamEvent.tool_use none) r = silent (in_body [] boundary r)
  observe_stream normalize (StreamEvent.tool_use (some (id, name, input))) r =
      silent (in_body [] (λ t. use_tool r.questions id name input (boundary t)) r)
  observe_stream normalize (StreamEvent.usage none) r = (none, r)
  observe_stream normalize (StreamEvent.usage (some stop)) r =
      if is_empty stop then (none, r) else silent (note_stop (normalize stop) r)
  observe_stream normalize (StreamEvent.done content) r =
      end_turn reasons [] (done_terminal [] content) r
  observe_stream normalize (StreamEvent.error error) r =
      end_turn reasons [] (error_terminal error) r
  observe_stream normalize StreamEvent.other r = (none, r)
