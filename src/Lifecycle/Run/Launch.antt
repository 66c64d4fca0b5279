-- ===== src/Lifecycle/Run/Launch.antt =====
-- acp/lifecycle.go: the commit of a launch and readiness.
use go_agent_wrapper.Shared.{
  Bytes, ◌≡◌, refl, Bool, true, false, ◌||◌, Option, none, some, List, [], ◌∷◌, arith,
}
use go_agent_wrapper.Lifecycle.Session.{
  is_closing, Session, new_session, Observed, session_ready, turn_started, other_event,
  turn_completed, turn_failed, process_exited, prompt, prompt_failed, request_close, close_client,
  observe_kind, observe_event, emit_diagnostic, fix_outcome, close_events, close_diagnostics,
  close_done, abort_launch, capture_identity, commit_launch, close_launch_done, is_ready,
  is_processing, is_live,
}
use go_agent_wrapper.Lifecycle.Run.{
  Action, observes, prompts, prompt_fails, requests_close, closes_client, diagnoses, captures,
  commits, aborts, ends_launch, finishes, closes_events, closes_diagnostics, closes_done, step, run,
}

-- Sections other than the observation of a turn event.
abbrev pub is_turn_event : Action → Bool
is_turn_event (observes _ turn_started) = true
is_turn_event (observes _ (turn_completed _)) = true
is_turn_event (observes _ (turn_failed _)) = true
is_turn_event _ = false

abbrev pub AreNotTurns : List Action → Type 0
AreNotTurns [] = Unit
AreNotTurns (a ∷ rest) = (is_turn_event a ≡ false) × AreNotTurns rest

abbrev IsGuarded : Session → Type 0
IsGuarded s = s.launch_committed ≡ false → (is_ready s.state || is_processing s.state) ≡ false

event-IsGuarded :
    (redact : Bytes → Bytes) (identity : Option Bytes) (event : Observed) (s : Session)
    → is_turn_event (observes identity event) ≡ false
    → IsGuarded s
    → IsGuarded (observe_event redact identity event s)
unfolding observe_event observe_kind
event-IsGuarded redact none session_ready s quiet h = ground (arith, h)
event-IsGuarded redact (some id) session_ready s quiet h = ground (arith, h)
event-IsGuarded redact none other_event s quiet h = ground (arith, h)
event-IsGuarded redact (some id) other_event s quiet h = ground (arith, h)
event-IsGuarded redact none (process_exited e) s quiet h = ground (arith, h)
event-IsGuarded redact (some id) (process_exited e) s quiet h = ground (arith, h)
event-IsGuarded redact identity turn_started s quiet h = ground (arith, quiet)
event-IsGuarded redact identity (turn_completed r) s quiet h = ground (arith, quiet)
event-IsGuarded redact identity (turn_failed r) s quiet h = ground (arith, quiet)

step-IsGuarded :
    (redact : Bytes → Bytes) (a : Action) (s : Session)
    → is_turn_event a ≡ false
    → IsGuarded s
    → IsGuarded (step redact a s)
unfolding step
step-IsGuarded redact (observes identity event) s quiet h =
    event-IsGuarded redact identity event s quiet h
step-IsGuarded redact prompts s quiet h = unfold prompt in ground (arith, h)
step-IsGuarded redact prompt_fails s quiet h = unfold prompt_failed in ground (arith, h)
step-IsGuarded redact requests_close s quiet h = unfold request_close in ground (arith, h)
step-IsGuarded redact (closes_client e) s quiet h = unfold close_client in ground (arith, h)
step-IsGuarded redact (diagnoses m) s quiet h = unfold emit_diagnostic in ground (arith, h)
step-IsGuarded redact (captures none) s quiet h = unfold capture_identity in ground (arith, h)
step-IsGuarded redact (captures (some id)) s quiet h = unfold capture_identity in ground (arith, h)
step-IsGuarded redact commits s quiet h = unfold commit_launch in ground (arith, h)
step-IsGuarded redact aborts s quiet h = unfold abort_launch in ground (arith, h)
step-IsGuarded redact ends_launch s quiet h = unfold close_launch_done in ground (arith, h)
step-IsGuarded redact finishes s quiet h = unfold fix_outcome in ground (arith, h)
step-IsGuarded redact closes_events s quiet h = unfold close_events in ground (arith, h)
step-IsGuarded redact closes_diagnostics s quiet h = unfold close_diagnostics in ground (arith, h)
step-IsGuarded redact closes_done s quiet h = unfold close_done in ground (arith, h)

run-IsGuarded :
    (redact : Bytes → Bytes) (actions : List Action) (s : Session)
    → AreNotTurns actions
    → IsGuarded s
    → IsGuarded (run redact actions s)
unfolding run
run-IsGuarded redact [] s quiet h = h
run-IsGuarded redact (a ∷ rest) s quiet h =
    run-IsGuarded redact rest (step redact a s) quiet.1 (step-IsGuarded redact a s quiet.0 h)

guarded-refuses :
    (s : Session) → (is_ready s.state || is_processing s.state) ≡ false → prompt s ≡ (false, s)
unfolding prompt
guarded-refuses s h = ground (arith, h)

-- As long as the client sends no turn event, a session whose launch is not committed by the host is
-- neither ready nor processing and refuses every Prompt without a change, whatever else happened
-- to it, a session.ready event that came before the commit included.
pub uncommitted_refuses_prompts :
    (redact : Bytes → Bytes) (actions : List Action) (id : Bytes)
    → AreNotTurns actions
    → (run redact actions (new_session id)).launch_committed ≡ false
    → ((is_ready (run redact actions (new_session id)).state
          || is_processing (run redact actions (new_session id)).state)
        ≡ false)
      × (prompt (run redact actions (new_session id))
          ≡ (false, run redact actions (new_session id)))
uncommitted_refuses_prompts redact actions id quiet uncommitted =
    let guarded = run-IsGuarded redact actions (new_session id) quiet (λ _. refl) uncommitted in
    (guarded, guarded-refuses (run redact actions (new_session id)) guarded)

-- A turn event before the commit makes a session ready all the same: where the client reports a
-- completed turn to an unfinished session that is not closing, its state is ready and the next
-- Prompt is admitted, although the session is not live if its launch is not committed.
pub turn_event_before_commit :
    (redact : Bytes → Bytes) (identity : Option Bytes) (reason : Bytes) (s : Session)
    → s.finished ≡ false
    → is_closing s.state ≡ false
    → s.launch_committed ≡ false
    → ((prompt (observe_event redact identity (turn_completed reason) s)).0 ≡ true)
      × (is_live (observe_event redact identity (turn_completed reason) s) ≡ false)
unfolding observe_event observe_kind prompt is_live
turn_event_before_commit redact none reason s live ajar uncommitted =
    ground (arith, live, ajar, uncommitted)
turn_event_before_commit redact (some id) reason s live ajar uncommitted =
    ground (arith, live, ajar, uncommitted)
