-- ===== src/Lifecycle/Run/Ending.antt =====
-- acp/lifecycle.go: the outcomes and errors that finish leaves.
use go_agent_wrapper.Lifecycle.Run.Final.{step-IsFixed}
use go_agent_wrapper.Shared.{
  is_empty, sym, Bytes, ◌≡◌, refl, ◌∙◌, true, false, ◌&&◌, ◌⊎◌, inl, inr, Option, none, some, List,
  [], ◌∷◌, arith, Bool-cases, Option-cases,
}
use go_agent_wrapper.Lifecycle.Outcome.{
  lifecycle, State, closed, failed, Outcome, ended, child_exit, disconnected, malformed_stream,
  LifecycleError,
}
use go_agent_wrapper.Lifecycle.Session.{
  wait_result, exit_error, read_error, Session, new_session, Observed, session_ready, turn_started,
  other_event, turn_completed, turn_failed, process_exited, prompt, prompt_failed, request_close,
  close_client, observe_identity, observe_kind, observe_event, emit_diagnostic, fix_outcome,
  close_events, close_diagnostics, close_done, abort_launch, capture_identity, commit_launch,
  close_launch_done,
}
use go_agent_wrapper.Lifecycle.Run.{
  Action, observes, prompts, prompt_fails, requests_close, closes_client, diagnoses, captures,
  commits, aborts, ends_launch, finishes, closes_events, closes_diagnostics, closes_done, step, run,
}
use go_agent_wrapper.Lifecycle.Run.Order.{IsOrdered, step-IsOrdered, new_session-IsOrdered}

-- The error of a session, where it has one, is of the kind its outcome names.
abbrev Names : Option LifecycleError → Option Outcome → Type 0
Names err terminal = (e : LifecycleError) → err ≡ some e → terminal ≡ some e.kind

-- How a session ended: its state, its terminal outcome and its error.
abbrev pub Ends : State → Option Outcome → Option LifecycleError → Type 0
Ends state terminal err =
    ((state ≡ failed) × ((e : LifecycleError) × (err ≡ some e) × (terminal ≡ some e.kind)))
    ⊎ ((state ≡ closed) × (terminal ≡ some ended))
    ⊎ ((state ≡ closed) × (terminal ≡ some child_exit) × (err ≡ none))

-- A session before its end, whose error is of the kind of its outcome, and after it.
abbrev Told : Session → Type 0
Told s =
    (s.finished ≡ false → Names s.err s.terminal_outcome)
    × (s.finished ≡ true → Ends s.state s.terminal_outcome s.err)

fix_outcome-Ends :
    (s : Session)
    → Names s.err s.terminal_outcome
    → Ends (fix_outcome s).state (fix_outcome s).terminal_outcome (fix_outcome s).err
unfolding fix_outcome
fix_outcome-Ends s h = elim (Bool-cases s.close_requested) [
  | inl c ↦ inr (inl (ground (arith, c)))
  | inr c ↦ elim (Bool-cases s.saw_malformed) [
    | inl m ↦ inl (
      ground (arith, c, m),
      (read_error malformed_stream, ground (arith, c, m), ground (arith, c, m)),
    )
    | inr m ↦ elim (Option-cases s.err) [
      | inl e ↦ elim (Bool-cases s.saw_process_exit) [
        | inl x ↦ inr (inr (ground (arith, c, m, e, x)))
        | inr x ↦ inl (
          ground (arith, c, m, e, x),
          (read_error disconnected, ground (arith, c, m, e, x), ground (arith, c, m, e, x)),
        )
      ]
      | inr (a, e) ↦
          let named = h a e in
          inl
            (ground (arith, c, m, e), (a, ground (arith, c, m, e), ground (arith, c, m, e, named)))
    ]
  ]
]

kind-Names :
    (redact : Bytes → Bytes) (event : Observed) (s : Session)
    → Names s.err s.terminal_outcome
    → Names (observe_kind redact event s).err (observe_kind redact event s).terminal_outcome
unfolding observe_kind
kind-Names redact session_ready s h = λ e p. let named = h e in ground (arith, named, p)
kind-Names redact turn_started s h = h
kind-Names redact other_event s h = h
kind-Names redact (turn_completed r) s h = h
kind-Names redact (turn_failed r) s h = h
kind-Names redact (process_exited r) s h = λ e p. let named = h e in ground (arith, named, p)

identity-Names :
    (identity : Option Bytes) (s : Session)
    → Names s.err s.terminal_outcome
    → Names (observe_identity identity s).err (observe_identity identity s).terminal_outcome
identity-Names none s h = h
identity-Names (some id) s h = λ e p. let named = h e in ground (arith, named, p)

-- A section that leaves the error, the outcome and the flag as they are.
same-Told :
    (s t : Session)
    → (t.err ≡ s.err) × (t.terminal_outcome ≡ s.terminal_outcome) × (t.finished ≡ s.finished)
    → s.finished ≡ false
    → Names s.err s.terminal_outcome
    → Told t
same-Told s t same live h =
    (λ _ e p. same.1 ∙ h e (sym same.0 ∙ p), λ over. ground (arith, same.2, live, over))

event-finished :
    (redact : Bytes → Bytes) (event : Observed) (s : Session)
    → (observe_kind redact event s).finished ≡ s.finished
unfolding observe_kind
event-finished redact session_ready s = ground arith
event-finished redact turn_started s = refl
event-finished redact other_event s = refl
event-finished redact (turn_completed r) s = refl
event-finished redact (turn_failed r) s = refl
event-finished redact (process_exited r) s = ground arith

identity-finished :
    (identity : Option Bytes) (s : Session) → (observe_identity identity s).finished ≡ s.finished
identity-finished none s = refl
identity-finished (some id) s = ground arith

fix-Told : (s : Session) → Names s.err s.terminal_outcome → Told (fix_outcome s)
unfolding fix_outcome
fix-Told s h = (λ open_now. ground (arith, open_now), λ _. fix_outcome-Ends s h)

event-Told :
    (redact : Bytes → Bytes) (identity : Option Bytes) (event : Observed) (s : Session)
    → s.finished ≡ false
    → Names s.err s.terminal_outcome
    → Told (observe_event redact identity event s)
unfolding observe_event
event-Told redact identity event s live h = simp live (
  λ _. kind-Names redact event (observe_identity identity s) (identity-Names identity s h),
  λ over. ground (
    arith,
    over,
    live,
    event-finished redact event (observe_identity identity s),
    identity-finished identity s,
  ),
)

finishes-Told :
    (redact : Bytes → Bytes) (s : Session)
    → s.finished ≡ false
    → Names s.err s.terminal_outcome
    → Told (step redact finishes s)
unfolding step
finishes-Told redact s live h = elim (Bool-cases (s.launch_done && s.close_started)) [
  | inl on ↦ simp (on, live) (fix-Told s h)
  | inr off ↦ same-Told s (step redact finishes s) (ground (arith, off)) live h
]

open-step :
    (redact : Bytes → Bytes) (a : Action) (s : Session)
    → s.finished ≡ false
    → Names s.err s.terminal_outcome
    → Told (step redact a s)
open-step redact (observes identity event) s live h =
    unfold step in event-Told redact identity event s live h
open-step redact finishes s live h = finishes-Told redact s live h
open-step redact prompts s live h =
    unfold step prompt in same-Told s (prompt s).1 (ground arith) live h
open-step redact prompt_fails s live h =
    unfold step prompt_failed in same-Told s (prompt_failed s) (ground arith) live h
open-step redact requests_close s live h =
    unfold step request_close in same-Told s (request_close s) (ground arith) live h
open-step redact (closes_client e) s live h =
    unfold step close_client in same-Told s (close_client e s) (ground arith) live h
open-step redact (diagnoses m) s live h =
    unfold step emit_diagnostic in same-Told s (emit_diagnostic m s) (ground arith) live h
open-step redact (captures none) s live h =
    unfold step capture_identity in
    same-Told s (step redact (captures none) s) (ground arith) live h
open-step redact (captures (some id)) s live h =
    unfold step capture_identity in
    same-Told s (step redact (captures (some id)) s) (ground arith) live h
open-step redact commits s live h =
    unfold step commit_launch in same-Told s (step redact commits s) (ground arith) live h
open-step redact aborts s live h =
    unfold step abort_launch in same-Told s (step redact aborts s) (ground arith) live h
open-step redact ends_launch s live h =
    unfold step close_launch_done in same-Told s (close_launch_done s) (ground arith) live h
open-step redact closes_events s live h =
    unfold step close_events in same-Told s (step redact closes_events s) (ground arith) live h
open-step redact closes_diagnostics s live h =
    unfold step close_diagnostics in
    same-Told s (step redact closes_diagnostics s) (ground arith) live h
open-step redact closes_done s live h =
    unfold step close_done in same-Told s (step redact closes_done s) (ground arith) live h

over-step :
    (redact : Bytes → Bytes) (a : Action) (s : Session)
    → IsOrdered s
    → s.finished ≡ true
    → Ends s.state s.terminal_outcome s.err
    → Told (step redact a s)
over-step redact a s o over h =
    let fixed = step-IsFixed redact a s s o (record {
      finished = over;
      state = refl;
      terminal = refl;
      err = refl;
      turn = refl;
      identity = refl;
    }) in
    (
      λ live. ground (arith, live, fixed.finished),
      λ _. rw (fixed.state, fixed.terminal, fixed.err) h,
    )

run-Told :
    (redact : Bytes → Bytes) (actions : List Action) (s : Session)
    → IsOrdered s
    → Told s
    → Told (run redact actions s)
unfolding run
run-Told redact [] s o h = h
run-Told redact (a ∷ rest) s o h =
    run-Told redact rest (step redact a s) (step-IsOrdered redact a s o)
      (elim (Bool-cases s.finished) [
        | inl e ↦ over-step redact a s o e (h.1 e)
        | inr e ↦ open-step redact a s e (h.0 e)
      ])

-- Every session that Launch made and that is finished ended in one of three ways: it failed, its
-- error is there and of the kind that its terminal outcome names; it is closed with the outcome
-- of a requested close; or it is closed with the outcome of a child's exit, without an error.
pub finished_outcome :
    (redact : Bytes → Bytes) (actions : List Action) (id : Bytes)
    → (run redact actions (new_session id)).finished ≡ true
    → Ends
        (run redact actions (new_session id)).state
        (run redact actions (new_session id)).terminal_outcome
        (run redact actions (new_session id)).err
finished_outcome redact actions id over =
    (run-Told redact actions (new_session id) (new_session-IsOrdered id)
        (λ _ e p. ground (arith, p), λ o. ground (arith, o))).1
      over

-- An intentional close does not clear an error: where the process of an unfinished session was
-- seen to exit with an error text and Close was called, finish closes the session with the outcome
-- of a requested close, and Wait returns the child's exit as its error.
pub closed_after_exit :
    (redact : Bytes → Bytes) (identity : Option Bytes) (error : Bytes) (s : Session)
    → s.finished ≡ false
    → is_empty error ≡ false
    → ((fix_outcome
          (request_close (observe_event redact identity (process_exited error) s))).terminal_outcome
        ≡ some ended)
      × (wait_result
            (fix_outcome (request_close (observe_event redact identity (process_exited error) s)))
          ≡ some (lifecycle (exit_error (redact error))))
unfolding fix_outcome request_close observe_event observe_kind wait_result
closed_after_exit redact identity error s live text = simp (live, text) (refl, refl)
