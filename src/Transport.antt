-- ===== src/Transport.antt =====
-- acp/transport.go: TransportTermination, the join of a client's reader and its process. The steps of
-- Coordinate and the reports come in any order. A nil TransportTermination is not modelled.
pub mod Joined
pub mod Returns
use go_agent_wrapper.Shared.{
  Bytes, Bool, true, false, not, Option, none, some, List, [], ◌∷◌, ◌++◌, if◌then◌else◌,
}
use go_agent_wrapper.Shared.Int.{ℤ, pos}

pub record ReadResult : Type 0 where
  pub malformed : Bool
  pub err : Option Bytes

pub record ProcessResult : Type 0 where
  pub exit_code : ℤ
  pub err : Option Bytes

pub record Outcome : Type 0 where
  pub read : ReadResult
  pub process : ProcessResult
  pub process_expected : Bool
  pub read_before_process : Bool
  pub disconnected : Bool
  pub killed_after_read : Bool

-- ShouldEmitProcessExit
unfoldable pub should_emit_process_exit : Outcome → Bool
should_emit_process_exit r =
    if not r.process_expected then false else if r.read.malformed then true else not r.disconnected

-- Where Coordinate is: at its first select, or at the read of a client without a process; past the
-- process alone; past the read alone, in the first grace period or, `stopped`, in the second one;
-- after the kill; or returned.
pub data Place : Type 0 where
  first : Place
  has_process : ProcessResult → Place
  has_read stopped killed : ReadResult → Place
  returned : Outcome → Place

-- What Coordinate called.
pub data Call : Type 0 where
  stop kill : Call

-- The channels hold what was sent on them and not yet received.
pub record Termination : Type 0 where
  pub process_expected : Bool
  pub has_stop : Bool
  pub has_kill : Bool
  pub read_done : Option ReadResult
  pub process_done : Option ProcessResult
  pub read_once : Bool
  pub process_once : Bool
  pub place : Place
  pub calls : List Call

-- NewTransportTermination, and the arguments of Coordinate.
abbrev pub new : Bool → Bool → Bool → Termination
new process_expected has_stop has_kill = record {
  process_expected = process_expected;
  has_stop = has_stop;
  has_kill = has_kill;
  read_done = none;
  process_done = none;
  read_once = false;
  process_once = false;
  place = first;
  calls = [];
}

unfoldable pub report_read : ReadResult → Termination → Termination
report_read r t = if t.read_once then t else record t { read_once = true; read_done = some r }

unfoldable pub report_process : ProcessResult → Termination → Termination
report_process p t =
    if t.process_once then t else record t { process_once = true; process_done = some p }

-- The zero TransportProcessResult.
abbrev pub no_process : ProcessResult
no_process = record { exit_code = pos 0; err = none }

abbrev pub read_only : ReadResult → Outcome
read_only r = record {
  read = r;
  process = no_process;
  process_expected = false;
  read_before_process = false;
  disconnected = false;
  killed_after_read = false;
}

abbrev pub process_first : ProcessResult → ReadResult → Outcome
process_first p r = record {
  read = r;
  process = p;
  process_expected = true;
  read_before_process = false;
  disconnected = false;
  killed_after_read = false;
}

abbrev pub read_first : Bool → Bool → ReadResult → ProcessResult → Outcome
read_first disconnected killed_after_read r p = record {
  read = r;
  process = p;
  process_expected = true;
  read_before_process = true;
  disconnected = disconnected;
  killed_after_read = killed_after_read;
}

-- Coordinate receives from readDone, where it waits for that.
abbrev pub place_read : Bool → ReadResult → Place → Option Place
place_read false r first = some (returned (read_only r))
place_read true r first = some (has_read r)
place_read expected r (has_process p) = some (returned (process_first p r))
place_read expected r (has_read q) = none
place_read expected r (stopped q) = none
place_read expected r (killed q) = none
place_read expected r (returned o) = none

-- Coordinate receives from processDone, where it waits for that.
abbrev pub place_process : Bool → ProcessResult → Place → Option Place
place_process false p first = none
place_process true p first = some (has_process p)
place_process expected p (has_process q) = none
place_process expected p (has_read r) = some (returned (read_first false false r p))
place_process expected p (stopped r) = some (returned (read_first true false r p))
place_process expected p (killed r) = some (returned (read_first true true r p))
place_process expected p (returned o) = none

abbrev pub put_read : Option Place → Termination → Termination
put_read none t = t
put_read (some place) t = record t { read_done = none; place = place }

abbrev pub put_process : Option Place → Termination → Termination
put_process none t = t
put_process (some place) t = record t { process_done = none; place = place }

unfoldable pub receive_read : Option ReadResult → Termination → Termination
receive_read none t = t
receive_read (some r) t = put_read (place_read t.process_expected r t.place) t

unfoldable pub receive_process : Option ProcessResult → Termination → Termination
receive_process none t = t
receive_process (some p) t = put_process (place_process t.process_expected p t.place) t

-- A grace period ends: `stop` after the first, `kill` after the second.
unfoldable pub time_out : Place → Termination → Termination
time_out (has_read r) t = record t {
  place = stopped r;
  calls = if t.has_stop then t.calls ++ stop ∷ [] else t.calls;
}
time_out (stopped r) t = record t {
  place = killed r;
  calls = if t.has_kill then t.calls ++ kill ∷ [] else t.calls;
}
time_out first t = t
time_out (has_process p) t = t
time_out (killed r) t = t
time_out (returned o) t = t

pub data Action : Type 0 where
  reports_read : ReadResult → Action
  reports_process : ProcessResult → Action
  receives_read receives_process times_out : Action

unfoldable pub step : Action → Termination → Termination
unfolding report_read report_process receive_read receive_process time_out
step (reports_read r) t = report_read r t
step (reports_process p) t = report_process p t
step receives_read t = receive_read t.read_done t
step receives_process t = receive_process t.process_done t
step times_out t = time_out t.place t

unfoldable pub run : List Action → Termination → Termination
run [] t = t
run (a ∷ rest) t = run rest (step a t)
