-- ===== src/Lifecycle/Run/Final.antt =====
-- acp/lifecycle.go: what no later section undoes, and how a session ends.
use go_agent_wrapper.Shared.{
  Bytes, ◌≡◌, refl, ◌∙◌, true, false, ◌||◌, inl, inr, Option, none, some, List, [], ◌∷◌, arith,
  Bool-cases,
}
use go_agent_wrapper.Lifecycle.Session.{
  Session, new_session, Observed, session_ready, turn_started, other_event, turn_completed,
  turn_failed, process_exited, prompt, prompt_failed, request_close, close_client, observe_identity,
  observe_kind, observe_event, emit_diagnostic, fix_outcome, close_events, close_diagnostics,
  close_done, abort_launch, capture_identity, commit_launch, close_launch_done, is_over, is_closing,
}
use go_agent_wrapper.Lifecycle.Run.{
  Action, observes, prompts, prompt_fails, requests_close, closes_client, diagnoses, captures,
  commits, aborts, ends_launch, finishes, closes_events, closes_diagnostics, closes_done, step, run,
}
use go_agent_wrapper.Lifecycle.Run.Order.{
  IsOrdered, step-IsOrdered, run-IsOrdered, new_session-IsOrdered,
}

-- The terminal view of a finished session.
pub record IsFixed (s t : Session) : Type 0 where
  pub finished : t.finished ≡ true
  pub state : t.state ≡ s.state
  pub terminal : t.terminal_outcome ≡ s.terminal_outcome
  pub err : t.err ≡ s.err
  pub turn : t.last_turn_outcome ≡ s.last_turn_outcome
  pub identity : t.provider_session_id ≡ s.provider_session_id

pub step-IsFixed :
    (redact : Bytes → Bytes) (a : Action) (s t : Session)
    → IsOrdered t
    → IsFixed s t
    → IsFixed s (step redact a t)
unfolding step
step-IsFixed redact (observes identity event) s t o h = unfold observe_event in ground (arith, h)
step-IsFixed redact prompts s t o h = unfold prompt in ground (arith, o, h)
step-IsFixed redact prompt_fails s t o h = unfold prompt_failed in ground (arith, o, h)
step-IsFixed redact requests_close s t o h = unfold request_close in ground (arith, o, h)
step-IsFixed redact (closes_client e) s t o h = unfold close_client in ground (arith, o, h)
step-IsFixed redact (diagnoses malformed) s t o h = unfold emit_diagnostic in ground (arith, o, h)
step-IsFixed redact (captures identity) s t o h = ground (arith, o, h)
step-IsFixed redact commits s t o h = ground (arith, o, h)
step-IsFixed redact aborts s t o h = ground (arith, o, h)
step-IsFixed redact ends_launch s t o h = unfold close_launch_done in ground (arith, o, h)
step-IsFixed redact finishes s t o h = ground (arith, o, h)
step-IsFixed redact closes_events s t o h = unfold close_events in ground (arith, o, h)
step-IsFixed redact closes_diagnostics s t o h = unfold close_diagnostics in ground (arith, o, h)
step-IsFixed redact closes_done s t o h = unfold close_done in ground (arith, o, h)

run-IsFixed :
    (redact : Bytes → Bytes) (actions : List Action) (s t : Session)
    → IsOrdered t
    → IsFixed s t
    → IsFixed s (run redact actions t)
unfolding run
run-IsFixed redact [] s t o h = h
run-IsFixed redact (a ∷ rest) s t o h =
    run-IsFixed redact rest s (step redact a t) (step-IsOrdered redact a t o)
      (step-IsFixed redact a s t o h)

-- Once a session that Launch made is finished, nothing that its goroutines do later changes its
-- state, its terminal outcome, its error, its last turn outcome or its provider session id.
pub finished_is_final :
    (redact : Bytes → Bytes) (before after : List Action) (id : Bytes)
    → (run redact before (new_session id)).finished ≡ true
    → IsFixed
        (run redact before (new_session id))
        (run redact after (run redact before (new_session id)))
finished_is_final redact before after id over =
    run-IsFixed redact after (run redact before (new_session id))
      (run redact before (new_session id))
      (run-IsOrdered redact before (new_session id) (new_session-IsOrdered id))
      (record {
        finished = over;
        state = refl;
        terminal = refl;
        err = refl;
        turn = refl;
        identity = refl;
      })

-- A session whose end was asked for.
abbrev pub IsShut : Session → Type 0
IsShut s = (is_closing s.state || is_over s.state) ≡ true

identity-state :
    (identity : Option Bytes) (s : Session) → (observe_identity identity s).state ≡ s.state
identity-state none s = refl
identity-state (some id) s = ground arith

kind-IsShut :
    (redact : Bytes → Bytes) (event : Observed) (s : Session)
    → is_over s.state ≡ false
    → IsShut s
    → IsShut (observe_kind redact event s)
unfolding observe_kind
kind-IsShut redact session_ready s live h = ground (arith, h, live)
kind-IsShut redact turn_started s live h = ground (arith, h, live)
kind-IsShut redact other_event s live h = h
kind-IsShut redact (turn_completed r) s live h = ground (arith, h, live)
kind-IsShut redact (turn_failed r) s live h = ground (arith, h, live)
kind-IsShut redact (process_exited r) s live h = ground (arith, h, live)

event-IsShut :
    (redact : Bytes → Bytes) (identity : Option Bytes) (event : Observed) (s : Session)
    → IsOrdered s
    → IsShut s
    → IsShut (observe_event redact identity event s)
unfolding observe_event
event-IsShut redact identity event s o h = elim (Bool-cases s.finished) [
  | inl e ↦ simp e h
  | inr e ↦ simp e (
      kind-IsShut redact event (observe_identity identity s)
        (rw (identity-state identity s) (o.over ∙ e)) (rw (identity-state identity s) h))
]

step-IsShut :
    (redact : Bytes → Bytes) (a : Action) (s : Session)
    → IsOrdered s
    → IsShut s
    → IsShut (step redact a s)
unfolding step
step-IsShut redact (observes identity event) s o h = event-IsShut redact identity event s o h
step-IsShut redact prompts s o h = unfold prompt in ground (arith, h)
step-IsShut redact prompt_fails s o h = unfold prompt_failed in ground (arith, h)
step-IsShut redact requests_close s o h = unfold request_close in ground (arith, h)
step-IsShut redact (closes_client e) s o h = unfold close_client in ground (arith, h)
step-IsShut redact (diagnoses malformed) s o h = unfold emit_diagnostic in ground (arith, h)
step-IsShut redact (captures none) s o h = unfold capture_identity in ground (arith, h)
step-IsShut redact (captures (some id)) s o h = unfold capture_identity in ground (arith, h)
step-IsShut redact commits s o h = unfold commit_launch in ground (arith, h)
step-IsShut redact aborts s o h = unfold abort_launch in ground (arith, h)
step-IsShut redact ends_launch s o h = unfold close_launch_done in ground (arith, h)
step-IsShut redact finishes s o h = unfold fix_outcome in ground (arith, h)
step-IsShut redact closes_events s o h = unfold close_events in ground (arith, h)
step-IsShut redact closes_diagnostics s o h = unfold close_diagnostics in ground (arith, h)
step-IsShut redact closes_done s o h = unfold close_done in ground (arith, h)

run-IsShut :
    (redact : Bytes → Bytes) (actions : List Action) (s : Session)
    → IsOrdered s
    → IsShut s
    → IsShut (run redact actions s)
unfolding run
run-IsShut redact [] s o h = h
run-IsShut redact (a ∷ rest) s o h =
    run-IsShut redact rest (step redact a s) (step-IsOrdered redact a s o)
      (step-IsShut redact a s o h)

shut-refuses : (s : Session) → IsShut s → prompt s ≡ (false, s)
unfolding prompt
shut-refuses s h = ground (arith, h)

close-IsOrdered : (redact : Bytes → Bytes) (s : Session) → IsOrdered s → IsOrdered (request_close s)
unfolding step
close-IsOrdered redact s h = step-IsOrdered redact requests_close s h

close-IsShut : (s : Session) → IsShut (request_close s)
unfolding request_close
close-IsShut s = ground arith

-- Once Close was called on a session that Launch made, its state is closing, closed or failed
-- whatever its goroutines do later, the end of a running turn and of the launch included, and
-- every later Prompt is refused without a call of the client and changes nothing.
pub closed_refuses_prompts :
    (redact : Bytes → Bytes) (before after : List Action) (id : Bytes)
    → IsShut (run redact after (request_close (run redact before (new_session id))))
      × (prompt (run redact after (request_close (run redact before (new_session id))))
          ≡ (false, run redact after (request_close (run redact before (new_session id)))))
closed_refuses_prompts redact before after id =
    let ordered = run-IsOrdered redact before (new_session id) (new_session-IsOrdered id) in
    let shut =
      run-IsShut redact after (request_close (run redact before (new_session id)))
        (close-IsOrdered redact (run redact before (new_session id)) ordered)
        (close-IsShut (run redact before (new_session id))) in
    (
      shut,
      shut-refuses (run redact after (request_close (run redact before (new_session id)))) shut,
    )
