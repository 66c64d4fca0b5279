-- ===== src/Lifecycle/Run.antt =====
-- acp/lifecycle.go: what the goroutines of one session do to it, as sequences of critical
-- sections. A guard says what must have happened before the section: Launch runs its sections
-- before it closes launchDone, finish runs once, after launchDone and after its own closeOnce.Do,
-- and its sections follow one another.
pub mod Order
pub mod Final
pub mod Ending
pub mod Launch
pub mod Turns
use go_agent_wrapper.Shared.{
  Bytes, Bool, true, false, not, ◌&&◌, ◌||◌, Option, none, some, List, [], ◌∷◌, if◌then◌else◌,
}
use go_agent_wrapper.Lifecycle.Outcome.{ClientError}
use go_agent_wrapper.Lifecycle.Session.{
  Session, Observed, prompt, prompt_failed, request_close, close_client, observe_event,
  emit_diagnostic, fix_outcome, close_events, close_diagnostics, close_done, abort_launch,
  capture_identity, commit_launch, close_launch_done,
}

pub data Action : Type 0 where
  observes : Option Bytes → Observed → Action
  prompts prompt_fails requests_close : Action
  closes_client : Option ClientError → Action
  diagnoses : Bool → Action
  captures : Option Bytes → Action
  commits aborts ends_launch finishes closes_events closes_diagnostics closes_done : Action

abbrev pub guard : Bool → Session → Session → Session
guard b t s = if b then t else s

unfoldable pub step : (Bytes → Bytes) → Action → Session → Session
step redact (observes identity event) s = observe_event redact identity event s
step redact prompts s = (prompt s).1
step redact prompt_fails s = prompt_failed s
step redact requests_close s = request_close s
step redact (closes_client e) s = close_client e s
step redact (diagnoses malformed) s = emit_diagnostic malformed s
step redact (captures identity) s = guard (not s.launch_done) (capture_identity identity s) s
step redact commits s = guard (not s.launch_done) (commit_launch s) s
step redact aborts s = guard (not s.launch_done) (abort_launch s) s
step redact ends_launch s = close_launch_done s
step redact finishes s =
    guard (s.launch_done && s.close_started && not s.finished) (fix_outcome s) s
step redact closes_events s = guard s.finished (close_events s) s
step redact closes_diagnostics s = guard s.events_closed (close_diagnostics s) s
step redact closes_done s = guard s.diagnostics_closed (close_done s) s

unfoldable pub run : (Bytes → Bytes) → List Action → Session → Session
run redact [] s = s
run redact (a ∷ rest) s = run redact rest (step redact a s)
