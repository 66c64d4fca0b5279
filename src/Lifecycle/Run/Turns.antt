-- ===== src/Lifecycle/Run/Turns.antt =====
-- acp/lifecycle.go: one turn at a time.
use go_agent_wrapper.Shared.{
  Bytes, ◌≡◌, Bool, true, false, ◌||◌, Option, none, some, List, [], ◌∷◌, arith,
}
use go_agent_wrapper.Lifecycle.Session.{
  is_launching, Session, Observed, session_ready, turn_started, other_event, turn_completed,
  turn_failed, process_exited, prompt, request_close, close_client, observe_kind, observe_event,
  emit_diagnostic, fix_outcome, close_events, close_diagnostics, close_done, abort_launch,
  capture_identity, commit_launch, close_launch_done, is_ready,
}
use go_agent_wrapper.Lifecycle.Run.{
  Action, observes, prompts, prompt_fails, requests_close, closes_client, diagnoses, captures,
  commits, aborts, ends_launch, finishes, closes_events, closes_diagnostics, closes_done, step, run,
}

-- What ends a turn: a terminal turn event, or the client's refusal of the prompt.
abbrev pub ends_turn : Action → Bool
ends_turn (observes _ (turn_completed _)) = true
ends_turn (observes _ (turn_failed _)) = true
ends_turn prompt_fails = true
ends_turn _ = false

abbrev pub AreWithinTurn : List Action → Type 0
AreWithinTurn [] = Unit
AreWithinTurn (a ∷ rest) = (ends_turn a ≡ false) × AreWithinTurn rest

-- Neither ready nor to become ready at the commit of the launch.
abbrev IsBusy : Session → Type 0
IsBusy s = (is_ready s.state || is_launching s.state) ≡ false

event-IsBusy :
    (redact : Bytes → Bytes) (identity : Option Bytes) (event : Observed) (s : Session)
    → ends_turn (observes identity event) ≡ false
    → IsBusy s
    → IsBusy (observe_event redact identity event s)
unfolding observe_event observe_kind
event-IsBusy redact none session_ready s within h = ground (arith, h)
event-IsBusy redact (some id) session_ready s within h = ground (arith, h)
event-IsBusy redact none turn_started s within h = ground (arith, h)
event-IsBusy redact (some id) turn_started s within h = ground (arith, h)
event-IsBusy redact none other_event s within h = ground (arith, h)
event-IsBusy redact (some id) other_event s within h = ground (arith, h)
event-IsBusy redact none (process_exited e) s within h = ground (arith, h)
event-IsBusy redact (some id) (process_exited e) s within h = ground (arith, h)
event-IsBusy redact identity (turn_completed r) s within h = ground (arith, within)
event-IsBusy redact identity (turn_failed r) s within h = ground (arith, within)

step-IsBusy :
    (redact : Bytes → Bytes) (a : Action) (s : Session)
    → ends_turn a ≡ false
    → IsBusy s
    → IsBusy (step redact a s)
unfolding step
step-IsBusy redact (observes identity event) s within h =
    event-IsBusy redact identity event s within h
step-IsBusy redact prompts s within h = unfold prompt in ground (arith, h)
step-IsBusy redact prompt_fails s within h = ground (arith, within)
step-IsBusy redact requests_close s within h = unfold request_close in ground (arith, h)
step-IsBusy redact (closes_client e) s within h = unfold close_client in ground (arith, h)
step-IsBusy redact (diagnoses m) s within h = unfold emit_diagnostic in ground (arith, h)
step-IsBusy redact (captures none) s within h = unfold capture_identity in ground (arith, h)
step-IsBusy redact (captures (some id)) s within h = unfold capture_identity in ground (arith, h)
step-IsBusy redact commits s within h = unfold commit_launch in ground (arith, h)
step-IsBusy redact aborts s within h = unfold abort_launch in ground (arith, h)
step-IsBusy redact ends_launch s within h = unfold close_launch_done in ground (arith, h)
step-IsBusy redact finishes s within h = unfold fix_outcome in ground (arith, h)
step-IsBusy redact closes_events s within h = unfold close_events in ground (arith, h)
step-IsBusy redact closes_diagnostics s within h = unfold close_diagnostics in ground (arith, h)
step-IsBusy redact closes_done s within h = unfold close_done in ground (arith, h)

run-IsBusy :
    (redact : Bytes → Bytes) (actions : List Action) (s : Session)
    → AreWithinTurn actions
    → IsBusy s
    → IsBusy (run redact actions s)
unfolding run
run-IsBusy redact [] s within h = h
run-IsBusy redact (a ∷ rest) s within h =
    run-IsBusy redact rest (step redact a s) within.1 (step-IsBusy redact a s within.0 h)

admitted-IsBusy : (s : Session) → (prompt s).0 ≡ true → IsBusy (prompt s).1
unfolding prompt
admitted-IsBusy s h = ground (arith, h)

busy-refuses : (s : Session) → IsBusy s → prompt s ≡ (false, s)
unfolding prompt
busy-refuses s h = ground (arith, h)

-- One turn at a time: after a session admitted a prompt, every further Prompt is refused without a
-- call of the client and changes nothing, whatever else happens to the session, until the client
-- reports the end of a turn or refuses a prompt.
pub one_turn_at_a_time :
    (redact : Bytes → Bytes) (s : Session) (actions : List Action)
    → (prompt s).0 ≡ true
    → AreWithinTurn actions
    → prompt (run redact actions (prompt s).1) ≡ (false, run redact actions (prompt s).1)
one_turn_at_a_time redact s actions admitted within =
    busy-refuses (run redact actions (prompt s).1)
      (run-IsBusy redact actions (prompt s).1 within (admitted-IsBusy s admitted))
