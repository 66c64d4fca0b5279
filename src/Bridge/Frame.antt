-- ===== src/Bridge/Frame.antt =====
-- acp/writeframe.go: WriteFrameCtx, and the writes with a deadline of acp/ndjsonclient.go, on one
-- transport. What the context, the lock and the writer do during a call is the call's attempt. The
-- calls run one at a time, as the write lock makes them.
pub mod Contract
pub mod Framing
pub mod Glued
use go_agent_wrapper.Shared.{
  ℕ, Bytes, Bool, true, false, not, ◌&&◌, ◌||◌, Option, none, some, List, [], ◌∷◌, ◌++◌, take, ltb,
  if◌then◌else◌,
}

-- What has reached the agent, and whether closeTransport was called.
pub record Wire : Type 0 where
  pub sent : Bytes
  pub closed : Bool

abbrev pub open_wire : Wire
open_wire = record { sent = []; closed = false }

pub data WriteError : Type 0 where
  deadline_exceeded closed_pipe net_closed file_closed other : WriteError

pub data Outcome : Type 0 where
  written context_ended : Outcome
  failed : WriteError → Outcome

-- `never_ends`: ctx.Done() is nil. `try_locked`: TryLock took the lock. `acquired`: the lock came
-- before the end of the context. `has_deadline`: the writer has SetWriteDeadline. `deadline_set`:
-- that call succeeded. `fires`: the context ended before stop(). `saw_done`: the interrupt read
-- writeDone as set. `accepted` and `error` are what Write returned.
pub record Attempt : Type 0 where
  pub frame : Bytes
  pub ended_before : Bool
  pub never_ends : Bool
  pub try_locked : Bool
  pub acquired : Bool
  pub ended_locked : Bool
  pub has_deadline : Bool
  pub deadline_set : Bool
  pub fires : Bool
  pub saw_done : Bool
  pub accepted : ℕ
  pub error : Option WriteError
  pub ended_after : Bool

-- Whether lockCtx takes the lock. Where it gives up, a goroutine takes the lock later and frees it.
unfoldable pub lock_ctx : Attempt → Bool
lock_ctx a = if a.never_ends then true else if a.try_locked then true else a.acquired

abbrev pub is_deadline : WriteError → Bool
is_deadline deadline_exceeded = true
is_deadline closed_pipe = false
is_deadline net_closed = false
is_deadline file_closed = false
is_deadline other = false

abbrev pub is_closed : WriteError → Bool
is_closed closed_pipe = true
is_closed net_closed = true
is_closed file_closed = true
is_closed deadline_exceeded = false
is_closed other = false

-- The interrupt closed the transport.
abbrev pub closed_by_us : Attempt → Bool
closed_by_us a = a.fires && not (a.has_deadline && a.deadline_set) && not a.saw_done

-- w.Write, and the interrupt beside it.
unfoldable pub write : Attempt → Wire → Wire
write a w = record { sent = w.sent ++ take a.accepted a.frame; closed = w.closed || closed_by_us a }

abbrev pub close_transport : Wire → Wire
close_transport w = record w { closed = true }

-- WriteFrameCtx after a write that failed.
unfoldable pub after_error : Attempt → WriteError → Wire → Outcome × Wire
after_error a e w =
    let interrupted = is_deadline e || (closed_by_us a && is_closed e) in
    (
      if a.ended_after && interrupted then context_ended else failed e,
      if ltb 0 a.accepted then close_transport w else w,
    )

unfoldable pub write_frame : Attempt → Wire → Outcome × Wire
unfolding lock_ctx write after_error
write_frame a w =
    if a.ended_before
    then (context_ended, w)
    else if not (lock_ctx a)
    then (context_ended, w)
    else if a.ended_locked
    then (context_ended, w)
    else elim a.error [ none ↦ (written, write a w) | some e ↦ after_error a e (write a w) ]

-- writeLineWithDeadline, where `accepted` of the frame reached the agent.
unfoldable pub write_with_deadline : Bytes → ℕ → Option WriteError → Wire → Option WriteError × Wire
write_with_deadline frame accepted error w =
    (error, record w { sent = w.sent ++ take accepted frame })

-- What any goroutine does to the transport: a call of WriteFrameCtx, the answer to a server request
-- by RespondToServerRequest, and a close.
pub data Action : Type 0 where
  frames : Attempt → Action
  answers : Bytes → ℕ → Option WriteError → Action
  closes : Action

unfoldable pub step : Action → Wire → Wire
step (frames a) w = (write_frame a w).1
step (answers frame accepted error) w = (write_with_deadline frame accepted error w).1
step closes w = close_transport w

unfoldable pub run : List Action → Wire → Wire
run [] w = w
run (a ∷ rest) w = run rest (step a w)
