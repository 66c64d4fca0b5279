-- ===== src/Turnoutput/Report.antt =====
-- turnoutput/reducer.go: the Output of a turn, the second half of finish. The stop reasons that
-- go-llm-types declares are a parameter.
use go_agent_wrapper.Shared.{
  Bytes, bytes, ◌==◌, is_empty, trim_space, Bool, false, ◌&&◌, ◌||◌, none, some, [], if◌then◌else◌,
}
use go_agent_wrapper.Turnoutput.Output.{
  Kind, final, failure, terminal, Confidence, exact, heuristic, Output,
}
use go_agent_wrapper.Turnoutput.Turn.{Turn}
use go_agent_wrapper.Turnoutput.Blocks.{pick}
use go_agent_wrapper.Turnoutput.Signals.{open_signal, signal_text}
use go_agent_wrapper.Turnoutput.Reducer.{Reducer, or_if_empty}

abbrev pub reason_interrupted : Bytes
reason_interrupted = bytes "interrupted"

abbrev pub reason_process_exited : Bytes
reason_process_exited = bytes "process_exited"

-- llmtypes.StopReasonCancelled and llmtypes.StopReasonError
pub record StopReasons : Type 0 where
  pub cancelled : Bytes
  pub error : Bytes

-- What a turn's terminal event says.
pub record Terminal : Type 0 where
  pub failed : Bool
  pub err_text : Bytes
  pub cut : Bool
  pub reason : Bytes
  pub stop_reason : Bytes
  pub text : Bytes

abbrev pub no_terminal : Terminal
no_terminal = record {
  failed = false;
  err_text = [];
  cut = false;
  reason = [];
  stop_reason = [];
  text = [];
}

abbrev pub stop_of : Turn → Terminal → Bytes
stop_of t term = or_if_empty term.stop_reason t.usage_stop

abbrev pub or_text : Bytes × Confidence → Bytes × Confidence → Bytes × Confidence
or_text (s, c) other = if is_empty s then other else (s, c)

-- The text and stop reason of a turn that failed, of one cut short, and of one that completed.
unfoldable pub failure_text : Terminal → Bytes × Confidence
failure_text term = or_text (trim_space term.err_text, exact) (term.reason, heuristic)

unfoldable pub cut_text : Turn → Terminal → Bytes × Confidence
unfolding pick
cut_text t term =
    or_text (pick 0 term.text t)
      (or_text (trim_space term.err_text, exact) (term.reason, heuristic))

unfoldable pub final_text : Turn → Terminal → Kind × Bytes × Confidence
unfolding open_signal signal_text pick
final_text t term = elim (open_signal t) [
  | none ↦ (final, (pick 0 term.text t).0, (pick 0 term.text t).1)
  | some sig ↦ (
    sig.kind,
    (signal_text sig term.text (pick 0 term.text t) t).0,
    (signal_text sig term.text (pick 0 term.text t) t).1,
  )
]

abbrev pub output : Reducer → Turn → Kind → Bytes × Confidence → Bytes → Output
output r t kind (text, confidence) stop = record {
  session_id = r.session_id;
  turn_id = t.id;
  text = text;
  kind = kind;
  stop_reason = stop;
  runtime = r.runtime;
  confidence = confidence;
}

module _ (reasons : StopReasons) where
  -- Whether the turn was cut short.
  unfoldable pub is_cut : Turn → Terminal → Bool
  is_cut t term =
      term.cut
      || (term.failed
          && (term.reason == reason_interrupted || term.reason == reason_process_exited))
      || stop_of t term == reasons.cancelled

  unfoldable pub cut_stop : Turn → Terminal → Bytes
  cut_stop t term =
      or_if_empty (if term.reason == reason_interrupted then reasons.cancelled else stop_of t term)
        reasons.error

  -- The switch at the end of finish.
  unfoldable pub report : Reducer → Turn → Terminal → Output
  unfolding is_cut failure_text cut_text cut_stop final_text
  report r t term =
      if is_cut t term
      then output r t terminal (cut_text t term) (cut_stop t term)
      else if term.failed
      then output r t failure (failure_text term) (or_if_empty (stop_of t term) reasons.error)
      else output r t (final_text t term).0 ((final_text t term).1, (final_text t term).2)
          (stop_of t term)
