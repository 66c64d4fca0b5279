-- ===== src/Lifecycle/Session.antt =====
-- acp/lifecycle.go: Session, each method as its critical sections. Times are left out. The
-- channels are kept as whether they are closed, and the client as how often Close was called on
-- it. What the client reports as its session id is an argument: `none` where the client has no
-- such method.
use go_agent_wrapper.Shared.{
  ℕ, suc, Bytes, bytes, is_empty, Bool, true, false, not, ◌&&◌, ◌||◌, Option, none, some, [],
  if◌then◌else◌, is_some,
}
use go_agent_wrapper.Lifecycle.Outcome.{
  State, launching, ready, processing, closing, closed, failed, Outcome, ended, disconnected,
  child_exit, malformed_stream, LifecycleError, ClientError, Failure, not_live, lifecycle, plain,
  classify_turn_completion, classify_turn_failure, normalize_operation_error,
}

pub record Session : Type 0 where
  pub id : Bytes
  pub state : State
  pub provider_session_id : Bytes
  pub last_turn_outcome : Option Outcome
  pub terminal_outcome : Option Outcome
  pub err : Option LifecycleError
  pub close_requested : Bool
  pub saw_process_exit : Bool
  pub saw_malformed : Bool
  pub launch_committed : Bool
  pub pending_ready : Bool
  pub finished : Bool
  pub events_closed : Bool
  pub diagnostics_closed : Bool
  pub done_closed : Bool
  pub launch_done : Bool
  -- closeOnce, closeErr, and the calls of the client's Close.
  pub close_started : Bool
  pub close_err : Option ClientError
  pub client_closes : ℕ

abbrev pub new_session : Bytes → Session
new_session id = record {
  id = id;
  state = launching;
  provider_session_id = [];
  last_turn_outcome = none;
  terminal_outcome = none;
  err = none;
  close_requested = false;
  saw_process_exit = false;
  saw_malformed = false;
  launch_committed = false;
  pending_ready = false;
  finished = false;
  events_closed = false;
  diagnostics_closed = false;
  done_closed = false;
  launch_done = false;
  close_started = false;
  close_err = none;
  client_closes = 0;
}

abbrev pub is_ready : State → Bool
is_ready ready = true
is_ready _ = false

abbrev pub is_processing : State → Bool
is_processing processing = true
is_processing _ = false

abbrev pub is_closing : State → Bool
is_closing closing = true
is_closing _ = false

abbrev pub is_launching : State → Bool
is_launching launching = true
is_launching _ = false

abbrev pub is_over : State → Bool
is_over closed = true
is_over failed = true
is_over _ = false

-- Snapshot().Live
unfoldable pub is_live : Session → Bool
is_live s = s.launch_committed && (is_ready s.state || is_processing s.state || is_closing s.state)

-- Prompt up to the client's call: whether the client is called.
unfoldable pub prompt : Session → Bool × Session
prompt s = if is_ready s.state then (true, record s { state = processing }) else (false, s)

-- Prompt after the client refused it.
unfoldable pub prompt_failed : Session → Session
prompt_failed s = if is_processing s.state then record s { state = ready } else s

-- What Prompt returns, of whether the client was called and of what the client returned.
unfoldable pub prompt_result : Bool → Option ClientError → Option Failure
unfolding normalize_operation_error
prompt_result false e = some not_live
prompt_result true e = normalize_operation_error (bytes "prompt") e

-- Cancel: whether the client's Cancel is called.
unfoldable pub cancels : Session → Bool
cancels s = is_processing s.state

unfoldable pub cancel_result : Bool → Option ClientError → Option Failure
unfolding normalize_operation_error
cancel_result false e = none
cancel_result true e = normalize_operation_error (bytes "cancel") e

-- The first section of Close.
unfoldable pub request_close : Session → Session
request_close s = record s {
  state = if is_over s.state then s.state else closing;
  close_requested = true;
}

-- closeOnce.Do, of what the client's Close returns.
unfoldable pub close_client : Option ClientError → Session → Session
close_client e s =
    if s.close_started
    then s
    else record s { close_started = true; close_err = e; client_closes = suc s.client_closes }

-- What the kinds of a runtime event are to a session, with the decoded payload.
pub data Observed : Type 0 where
  session_ready turn_started other_event : Observed
  turn_completed turn_failed process_exited : Bytes → Observed

abbrev pub observe_identity : Option Bytes → Session → Session
observe_identity none s = s
observe_identity (some id) s = if is_empty id then s else record s { provider_session_id = id }

abbrev pub to_ready : State → State
to_ready state = if is_closing state then state else ready

abbrev pub exit_error : Bytes → LifecycleError
exit_error diagnostic = record {
  kind = child_exit;
  operation = bytes "wait";
  diagnostic = diagnostic;
}

unfoldable pub observe_kind : (Bytes → Bytes) → Observed → Session → Session
unfolding classify_turn_completion classify_turn_failure
observe_kind redact session_ready s =
    if is_launching s.state && s.launch_committed
    then record s { state = ready }
    else if is_launching s.state
    then record s { pending_ready = true }
    else s
observe_kind redact turn_started s = record s {
  state = if is_closing s.state then s.state else processing;
}
observe_kind redact other_event s = s
observe_kind redact (turn_completed stop_reason) s = record s {
  state = to_ready s.state;
  last_turn_outcome = classify_turn_completion stop_reason;
}
observe_kind redact (turn_failed error) s = record s {
  state = to_ready s.state;
  last_turn_outcome = classify_turn_failure error;
}
observe_kind redact (process_exited error) s =
    if is_empty error then record s { saw_process_exit = true } else record s {
      saw_process_exit = true;
      err = some (exit_error (redact error));
      terminal_outcome = some child_exit;
    }

-- observeEvent; `redact` is redactDiagnostic, which uses package regexp.
unfoldable pub observe_event : (Bytes → Bytes) → Option Bytes → Observed → Session → Session
unfolding observe_kind
observe_event redact identity event s =
    if s.finished then s else observe_kind redact event (observe_identity identity s)

-- emitDiagnostic, of whether the diagnostic is of malformed JSON.
unfoldable pub emit_diagnostic : Bool → Session → Session
emit_diagnostic malformed s =
    if s.diagnostics_closed || not malformed then s else record s { saw_malformed = true }

abbrev pub read_error : Outcome → LifecycleError
read_error kind = record { kind = kind; operation = bytes "read"; diagnostic = [] }

-- The section of finish that fixes the terminal state.
unfoldable pub fix_outcome : Session → Session
fix_outcome s =
    if s.close_requested
    then record s { finished = true; state = closed; terminal_outcome = some ended }
    else if s.saw_malformed
    then record s {
      finished = true;
      state = failed;
      terminal_outcome = some malformed_stream;
      err = some (read_error malformed_stream);
    }
    else if is_some s.err
    then record s { finished = true; state = failed }
    else if s.saw_process_exit
    then record s { finished = true; state = closed; terminal_outcome = some child_exit }
    else record s {
      finished = true;
      state = failed;
      terminal_outcome = some disconnected;
      err = some (read_error disconnected);
    }

unfoldable pub close_events : Session → Session
close_events s = record s { events_closed = true }

unfoldable pub close_diagnostics : Session → Session
close_diagnostics s = record s { diagnostics_closed = true }

unfoldable pub close_done : Session → Session
close_done s = record s { done_closed = true }

-- Launch, where the client refused the launch or the host the commit.
unfoldable pub abort_launch : Session → Session
abort_launch s = record s { close_requested = true; state = closing }

-- Launch, after the client's Launch returned.
unfoldable pub capture_identity : Option Bytes → Session → Session
capture_identity none s = s
capture_identity (some id) s = record s { provider_session_id = id }

-- Launch, after the host's commit.
unfoldable pub commit_launch : Session → Session
commit_launch s = record s {
  launch_committed = true;
  state = if is_launching s.state then ready else s.state;
}

unfoldable pub close_launch_done : Session → Session
close_launch_done s = record s { launch_done = true }

-- What Wait returns once done is closed, and what Close does.
unfoldable pub wait_result : Session → Option Failure
wait_result s = elim s.err [ none ↦ none | some e ↦ some (lifecycle e) ]

unfoldable pub close_result : Session → Option Failure
close_result s = elim s.close_err [ none ↦ none | some e ↦ some (plain e) ]
