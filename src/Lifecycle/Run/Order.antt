-- ===== src/Lifecycle/Run/Order.antt =====
-- acp/lifecycle.go: what every reachable session keeps.
use go_agent_wrapper.Shared.{
  Bytes, ◌≡◌, refl, true, false, inl, inr, Option, none, some, List, [], ◌∷◌, if◌then◌else◌, arith,
  ◌∙◌, Bool-cases,
}
use go_agent_wrapper.Lifecycle.Session.{
  Session, new_session, Observed, session_ready, turn_started, other_event, turn_completed,
  turn_failed, process_exited, prompt, prompt_failed, request_close, close_client, observe_identity,
  observe_kind, observe_event, emit_diagnostic, fix_outcome, close_events, close_diagnostics,
  close_done, abort_launch, capture_identity, commit_launch, close_launch_done, is_over,
}
use go_agent_wrapper.Lifecycle.Run.{
  Action, observes, prompts, prompt_fails, requests_close, closes_client, diagnoses, captures,
  commits, aborts, ends_launch, finishes, closes_events, closes_diagnostics, closes_done, step, run,
}

pub record IsOrdered (s : Session) : Type 0 where
  pub over : is_over s.state ≡ s.finished
  pub after_launch : s.finished ≡ true → s.launch_done ≡ true
  pub after_close : s.finished ≡ true → s.close_started ≡ true
  pub closes : s.client_closes ≡ (if s.close_started then 1 else 0)
  pub events : s.events_closed ≡ true → s.finished ≡ true
  pub diagnostics : s.diagnostics_closed ≡ true → s.events_closed ≡ true
  pub done : s.done_closed ≡ true → s.diagnostics_closed ≡ true

observe_kind-IsOrdered :
    (redact : Bytes → Bytes) (event : Observed) (s : Session)
    → s.finished ≡ false
    → IsOrdered s
    → IsOrdered (observe_kind redact event s)
unfolding observe_kind
observe_kind-IsOrdered redact session_ready s live h = ground (arith, h, live)
observe_kind-IsOrdered redact turn_started s live h = ground (arith, h, live)
observe_kind-IsOrdered redact other_event s live h = h
observe_kind-IsOrdered redact (turn_completed r) s live h = ground (arith, h, live)
observe_kind-IsOrdered redact (turn_failed r) s live h = ground (arith, h, live)
observe_kind-IsOrdered redact (process_exited r) s live h = ground (arith, h, live)

observe_identity-IsOrdered :
    (identity : Option Bytes) (s : Session) → IsOrdered s → IsOrdered (observe_identity identity s)
observe_identity-IsOrdered none s h = h
observe_identity-IsOrdered (some id) s h = ground (arith, h)

identity-finished :
    (identity : Option Bytes) (s : Session) → (observe_identity identity s).finished ≡ s.finished
identity-finished none s = refl
identity-finished (some id) s = ground arith

observe_event-IsOrdered :
    (redact : Bytes → Bytes) (identity : Option Bytes) (event : Observed) (s : Session)
    → IsOrdered s
    → IsOrdered (observe_event redact identity event s)
unfolding observe_event
observe_event-IsOrdered redact identity event s h = elim (Bool-cases s.finished) [
  | inl e ↦ simp e h
  | inr e ↦ simp e (
      observe_kind-IsOrdered redact event (observe_identity identity s)
        (identity-finished identity s ∙ e) (observe_identity-IsOrdered identity s h))
]

capture_identity-IsOrdered :
    (identity : Option Bytes) (s : Session) → IsOrdered s → IsOrdered (capture_identity identity s)
unfolding capture_identity
capture_identity-IsOrdered none s h = h
capture_identity-IsOrdered (some id) s h = ground (arith, h)

fix_outcome-IsOrdered :
    (s : Session)
    → s.launch_done ≡ true
    → s.close_started ≡ true
    → s.finished ≡ false
    → IsOrdered s
    → IsOrdered (fix_outcome s)
unfolding fix_outcome
fix_outcome-IsOrdered s l c f h = ground (arith, h, l, c, f)

pub step-IsOrdered :
    (redact : Bytes → Bytes) (a : Action) (s : Session) → IsOrdered s → IsOrdered (step redact a s)
unfolding step
step-IsOrdered redact (observes identity event) s h =
    observe_event-IsOrdered redact identity event s h
step-IsOrdered redact prompts s h = unfold prompt in ground (arith, h)
step-IsOrdered redact prompt_fails s h = unfold prompt_failed in ground (arith, h)
step-IsOrdered redact requests_close s h = unfold request_close in ground (arith, h)
step-IsOrdered redact (closes_client e) s h = unfold close_client in ground (arith, h)
step-IsOrdered redact (diagnoses malformed) s h = unfold emit_diagnostic in ground (arith, h)
step-IsOrdered redact (captures identity) s h =
    let kept = capture_identity-IsOrdered identity s h in ground (arith, h, kept)
step-IsOrdered redact commits s h = unfold commit_launch in ground (arith, h)
step-IsOrdered redact aborts s h = unfold abort_launch in ground (arith, h)
step-IsOrdered redact ends_launch s h = unfold close_launch_done in ground (arith, h)
step-IsOrdered redact finishes s h = let kept = fix_outcome-IsOrdered s in ground (arith, h, kept)
step-IsOrdered redact closes_events s h = unfold close_events in ground (arith, h)
step-IsOrdered redact closes_diagnostics s h = unfold close_diagnostics in ground (arith, h)
step-IsOrdered redact closes_done s h = unfold close_done in ground (arith, h)

pub run-IsOrdered :
    (redact : Bytes → Bytes) (actions : List Action) (s : Session)
    → IsOrdered s
    → IsOrdered (run redact actions s)
unfolding run
run-IsOrdered redact [] s h = h
run-IsOrdered redact (a ∷ rest) s h =
    run-IsOrdered redact rest (step redact a s) (step-IsOrdered redact a s h)

pub new_session-IsOrdered : (id : Bytes) → IsOrdered (new_session id)
new_session-IsOrdered id = ground arith

-- In every session that Launch made, whatever its goroutines did since: the client's Close was
-- called at most once, and exactly once where the session is finished; the session is closed or
-- failed exactly where it is finished, which is after its launch has ended; and Done is closed
-- only after the diagnostics, those only after the events, and those only once it is finished.
pub reachable-IsOrdered :
    (redact : Bytes → Bytes) (actions : List Action) (id : Bytes)
    → IsOrdered (run redact actions (new_session id))
reachable-IsOrdered redact actions id =
    run-IsOrdered redact actions (new_session id) (new_session-IsOrdered id)
