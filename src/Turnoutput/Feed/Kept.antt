-- ===== src/Turnoutput/Feed/Kept.antt =====
-- turnoutput/feed.go: every feed keeps the invariant of the Reducer, along every sequence of calls.
use go_agent_wrapper.Shared.{
  Bytes, is_empty, refl, Bool, true, false, Option, none, some, List, [], ◌∷◌, if◌then◌else◌,
  Option-cases, Bool-cases, inl, inr, lookup,
}
use go_agent_wrapper.Turnoutput.Output.{Output}
use go_agent_wrapper.Turnoutput.Turn.{Turn}
use go_agent_wrapper.Turnoutput.Blocks.{boundary}
use go_agent_wrapper.Turnoutput.Tools.{tool_result}
use go_agent_wrapper.Turnoutput.Safety.{
  Keeps, Keeps-id, Keeps-boundary, Keeps-add_delta, Keeps-add_tool, Keeps-tool_result,
  Keeps-raise_approval, Keeps-resolve, Keeps-request, Keeps-raise_question,
  Keeps-raise_requested_question, Keeps-then,
}
use go_agent_wrapper.Turnoutput.Reducer.{Config, Reducer, new, current, or_if_empty}
use go_agent_wrapper.Turnoutput.Closing.{flush}
use go_agent_wrapper.Turnoutput.Report.{StopReasons}
use go_agent_wrapper.Turnoutput.Reducer.Invariant.{
  IsKept-same, new-IsKept, body-IsKept, in_body-IsKept, note_stop-IsKept,
}
use go_agent_wrapper.Turnoutput.Reducer.Opening.{IsKept}
use go_agent_wrapper.Turnoutput.Reducer.Endings.{finish-IsKept, end_turn-IsKept, flush-IsKept}
use go_agent_wrapper.Turnoutput.Feed.Payload.{
  QuestionInput, DeltaPayload, ToolUsePayload, ToolResultPayload, RequestedPayload, ResolvedPayload,
  DeniedPayload, EventKind, turn_started, agent_delta, tool_use_event, tool_result_event,
  subagent_spawn, permission_requested, permission_resolved, permission_denied, turn_completed,
  turn_failed, process_exited, other, Event, ProviderEvent, StreamEvent, is_thought, outcome_of,
  call_of,
}
use go_agent_wrapper.Turnoutput.Feed.{
  on_delta, use_tool, on_tool_use, on_tool_result, on_requested, on_resolved, on_denied,
  terminal_of, identify, exit_terminal, error_text, done_terminal, error_terminal, on_exit,
  dispatch, observe, observe_provider, observe_stream,
}

Keeps-if : (b : Bool) {f g : Turn → Turn} → Keeps f → Keeps g → Keeps (λ t. if b then f t else g t)
Keeps-if true kf kg = kf
Keeps-if false kf kg = kg

Keeps-on_delta : (p : Option DeltaPayload) → Keeps (on_delta p)
unfolding on_delta
Keeps-on_delta none = Keeps-id
Keeps-on_delta (some p) = Keeps-if _ Keeps-id (Keeps-add_delta _ _ _)

Keeps-use_tool :
    (questions : List Bytes) (id name : Bytes) (input : Option QuestionInput)
    → Keeps (use_tool questions id name input)
unfolding use_tool
Keeps-use_tool questions id name input =
    Keeps-if _ (Keeps-then (Keeps-add_tool id true) (Keeps-raise_question _ id))
      (Keeps-add_tool id false)

Keeps-on_tool_use :
    (questions : List Bytes) (p : Option ToolUsePayload) → Keeps (on_tool_use questions p)
unfolding on_tool_use
Keeps-on_tool_use questions none = Keeps-boundary
Keeps-on_tool_use questions (some p) =
    let c = call_of p in
    Keeps-then Keeps-boundary (Keeps-use_tool questions c.id (or_if_empty c.name p.title) c.input)

Keeps-on_tool_result : (p : Option ToolResultPayload) → Keeps (on_tool_result p)
unfolding on_tool_result
Keeps-on_tool_result none = Keeps-boundary
Keeps-on_tool_result (some p) = result (outcome_of p)
  where
    result :
        (o : Option (Bytes × Bool))
        → Keeps (λ t. elim o [
          | none ↦ boundary t
          | some (id, is_error) ↦ tool_result id is_error (boundary t)
        ])
    result none = Keeps-boundary
    result (some (id, is_error)) = Keeps-then Keeps-boundary (Keeps-tool_result id is_error)

Keeps-on_requested : (id : Bytes) (p : Option RequestedPayload) → Keeps (on_requested id p)
unfolding on_requested
Keeps-on_requested id none = Keeps-boundary
Keeps-on_requested id (some p) =
    Keeps-if _ (Keeps-then Keeps-boundary (Keeps-raise_requested_question _))
      (Keeps-then Keeps-boundary (Keeps-request _ _))

Keeps-on_resolved : (id : Bytes) (p : Option ResolvedPayload) → Keeps (on_resolved id p)
unfolding on_resolved
Keeps-on_resolved id none = Keeps-boundary
Keeps-on_resolved id (some p) =
    Keeps-if _ Keeps-boundary (Keeps-then Keeps-boundary (Keeps-resolve _ _ _))

Keeps-on_denied : (p : DeniedPayload) → Keeps (on_denied p)
unfolding on_denied
Keeps-on_denied p = Keeps-then Keeps-boundary (Keeps-raise_approval _ _)

-- A call of one of the feeds, or of Flush.
pub data Input : Type 0 where
  envelope : Event → Input
  provider_event : ProviderEvent → Input
  stream_event : (Bytes → Bytes) → StreamEvent → Input
  flushed : Bytes → Input

module _ (reasons : StopReasons) where
  on_exit-IsKept : (error : Bytes) (r : Reducer) → IsKept r → IsKept (on_exit reasons error r).1
  unfolding on_exit
  on_exit-IsKept error r h = elim (Option-cases (current r)) [
    | inl e ↦ rw (e, on_exit) h
    | inr (k, e) ↦ elim (Option-cases (lookup k r.open_turns)) [
      | inl f ↦ rw (e, on_exit) (rw (f, on_exit) h)
      | inr (t, f) ↦
          rw (e, on_exit) (rw (f, on_exit) (finish-IsKept reasons t (exit_terminal error) r h))
    ]
  ]

  dispatch-IsKept :
      (k : EventKind) (ev : Event) (r : Reducer) → IsKept r → IsKept (dispatch reasons k ev r).1
  unfolding dispatch
  dispatch-IsKept turn_started ev r h = elim (Bool-cases (is_empty ev.turn_id)) [
    | inl e ↦ rw e h
    | inr e ↦ rw e (body-IsKept ev.turn_id r h)
  ]
  dispatch-IsKept (agent_delta p) ev r h = in_body-IsKept _ _ r (Keeps-on_delta p) h
  dispatch-IsKept (tool_use_event p) ev r h =
      in_body-IsKept _ _ r (Keeps-on_tool_use r.questions p) h
  dispatch-IsKept (tool_result_event p) ev r h = in_body-IsKept _ _ r (Keeps-on_tool_result p) h
  dispatch-IsKept subagent_spawn ev r h = in_body-IsKept _ _ r Keeps-boundary h
  dispatch-IsKept (permission_requested p) ev r h =
      in_body-IsKept _ _ r (Keeps-on_requested ev.id p) h
  dispatch-IsKept (permission_resolved p) ev r h =
      in_body-IsKept _ _ r (Keeps-on_resolved ev.parent_id p) h
  dispatch-IsKept (permission_denied p) ev r h = in_body-IsKept _ _ r (Keeps-on_denied p) h
  dispatch-IsKept (turn_completed p) ev r h =
      end_turn-IsKept reasons ev.turn_id (terminal_of false p) r h
  dispatch-IsKept (turn_failed p) ev r h =
      end_turn-IsKept reasons ev.turn_id (terminal_of true p) r h
  dispatch-IsKept (process_exited error) ev r h = on_exit-IsKept error r h
  dispatch-IsKept other ev r h = h

  observe-IsKept : (ev : Event) (r : Reducer) → IsKept r → IsKept (observe reasons ev r).1
  unfolding observe
  observe-IsKept ev r h =
      dispatch-IsKept ev.kind ev (identify ev r) (IsKept-same r (identify ev r) refl refl refl h)

  observe_provider-IsKept :
      (ev : ProviderEvent) (r : Reducer) → IsKept r → IsKept (observe_provider reasons ev r).1
  unfolding observe_provider
  observe_provider-IsKept (ProviderEvent.delta text k phase) r h =
      in_body-IsKept [] _ r (Keeps-if (is_thought phase) Keeps-id (Keeps-add_delta text k _)) h
  observe_provider-IsKept ProviderEvent.thinking r h = in_body-IsKept [] _ r Keeps-id h
  observe_provider-IsKept (ProviderEvent.tool_use id name input) r h =
      in_body-IsKept [] _ r (Keeps-then Keeps-boundary (Keeps-use_tool r.questions id name input)) h
  observe_provider-IsKept (ProviderEvent.tool_result id e) r h =
      in_body-IsKept [] _ r (Keeps-then Keeps-boundary (Keeps-tool_result id e)) h
  observe_provider-IsKept ProviderEvent.subagent_spawn r h = in_body-IsKept [] _ r Keeps-boundary h
  observe_provider-IsKept (ProviderEvent.usage stop) r h = note_stop-IsKept stop r h
  observe_provider-IsKept (ProviderEvent.permission_denied a d k) r h =
      in_body-IsKept [] _ r (Keeps-then Keeps-boundary (Keeps-raise_approval _ k)) h
  observe_provider-IsKept (ProviderEvent.done stop text) r h =
      end_turn-IsKept reasons [] (done_terminal stop text) r h
  observe_provider-IsKept (ProviderEvent.error message err) r h =
      end_turn-IsKept reasons [] (error_terminal (error_text message err)) r h

  observe_stream-IsKept :
      (normalize : Bytes → Bytes) (ev : StreamEvent) (r : Reducer)
      → IsKept r
      → IsKept (observe_stream reasons normalize ev r).1
  unfolding observe_stream
  observe_stream-IsKept normalize (StreamEvent.delta text k phase) r h =
      in_body-IsKept [] _ r (Keeps-if (is_thought phase) Keeps-id (Keeps-add_delta text k _)) h
  observe_stream-IsKept normalize StreamEvent.thinking r h = in_body-IsKept [] _ r Keeps-id h
  observe_stream-IsKept normalize (StreamEvent.tool_use none) r h =
      in_body-IsKept [] _ r Keeps-boundary h
  observe_stream-IsKept normalize (StreamEvent.tool_use (some (id, name, input))) r h =
      in_body-IsKept [] _ r (Keeps-then Keeps-boundary (Keeps-use_tool r.questions id name input)) h
  observe_stream-IsKept normalize (StreamEvent.usage none) r h = h
  observe_stream-IsKept normalize (StreamEvent.usage (some [])) r h = h
  observe_stream-IsKept normalize (StreamEvent.usage (some (c ∷ stop))) r h =
      note_stop-IsKept (normalize (c ∷ stop)) r h
  observe_stream-IsKept normalize (StreamEvent.done content) r h =
      end_turn-IsKept reasons [] (done_terminal [] content) r h
  observe_stream-IsKept normalize (StreamEvent.error error) r h =
      end_turn-IsKept reasons [] (error_terminal error) r h
  observe_stream-IsKept normalize StreamEvent.other r h = h

  unfoldable pub feed : Input → Reducer → Option Output × Reducer
  feed (envelope ev) r = observe reasons ev r
  feed (provider_event ev) r = observe_provider reasons ev r
  feed (stream_event normalize ev) r = observe_stream reasons normalize ev r
  feed (flushed reason) r = flush reasons reason r

  unfoldable pub feed_all : List Input → Reducer → Reducer
  unfolding feed
  feed_all [] r = r
  feed_all (i ∷ is) r = feed_all is (feed i r).1

  feed-IsKept : (i : Input) (r : Reducer) → IsKept r → IsKept (feed i r).1
  unfolding feed
  feed-IsKept (envelope ev) r h = observe-IsKept ev r h
  feed-IsKept (provider_event ev) r h = observe_provider-IsKept ev r h
  feed-IsKept (stream_event normalize ev) r h = observe_stream-IsKept normalize ev r h
  feed-IsKept (flushed reason) r h = flush-IsKept reasons reason r h

  feed_all-keeps : (is : List Input) (r : Reducer) → IsKept r → IsKept (feed_all is r)
  unfolding feed_all
  feed_all-keeps [] r h = h
  feed_all-keeps (i ∷ is) r h = feed_all-keeps is (feed i r).1 (feed-IsKept i r h)

  -- From New, for every configuration and after every sequence of calls of Observe,
  -- ObserveProvider, ObserveStream and Flush, in any mixture: the order lists the keys of the open
  -- turns, each once; every open turn has its key for its id, and its text, calls, signals, pending
  -- requests and early facts are within their bounds; at most maxOpenTurns turns are open and at
  -- most finishedMemory finished ids are kept.
  pub feed_all-IsKept : (cfg : Config) (is : List Input) → IsKept (feed_all is (new cfg))
  feed_all-IsKept cfg is = feed_all-keeps is (new cfg) (new-IsKept cfg)
