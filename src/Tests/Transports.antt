-- ===== src/Tests/Transports.antt =====
-- acp/transport.go: a process that outlives its protocol stream.
use go_agent_wrapper.Shared.{
  bytes, ◌≡◌, refl, true, false, not, ◌&&◌, none, some, List, [], ◌∷◌, if◌then◌else◌,
}
use go_agent_wrapper.Shared.Int.{pos}
use go_agent_wrapper.Transport.{
  ReadResult, ProcessResult, Outcome, returned, read_first, no_process, new, Action, reports_read,
  reports_process, receives_read, receives_process, times_out, stop, step, run, report_read,
  report_process, receive_read, receive_process, time_out, should_emit_process_exit,
}
use go_agent_wrapper.Transport.Joined.{first_read, first_process, calls_of}
use go_agent_wrapper.Transport.Returns.{
  is_returned, last_receives, coordinate_joins, coordinate_returns,
}

abbrev ended : ReadResult
ended = record { malformed = false; err = none }

abbrev exited : ProcessResult
exited = record { exit_code = pos 143; err = some (bytes "terminated") }

-- The reader ends, the grace period passes, and the process ends after the stop.
abbrev outlived : List Action
outlived =
    reports_read ended
    ∷ receives_read
    ∷ times_out
    ∷ reports_process exited
    ∷ reports_process no_process
    ∷ receives_process
    ∷ []

abbrev outlived_outcome : Outcome
outlived_outcome = read_first true false ended exited

outlived_test :
    ((run outlived (new true true true)).calls ≡ stop ∷ [])
    × (should_emit_process_exit outlived_outcome ≡ false)
unfolding run step report_read report_process receive_read receive_process time_out
    should_emit_process_exit
outlived_test = (refl, refl)

outlived_returned : (run outlived (new true true true)).place ≡ returned outlived_outcome
unfolding run step report_read report_process receive_read receive_process time_out
outlived_returned = refl

-- At that run.
coordinate_joins_example :
    (first_read none outlived ≡ some ended)
    × ((if true then first_process none outlived else some no_process) ≡ some exited)
    × ((run outlived (new true true true)).calls ≡ calls_of true true true false)
    × ((false && not true) ≡ false)
    × ((true && not true) ≡ false)
coordinate_joins_example =
    coordinate_joins true true true outlived outlived_outcome outlived_returned

-- At the reports alone.
coordinate_returns_example :
    is_returned
      (run last_receives
        (run (reports_process exited ∷ reports_read ended ∷ []) (new true true true))).place
    ≡ true
coordinate_returns_example =
    coordinate_returns true true true (reports_process exited ∷ reports_read ended ∷ []) ended
      exited refl refl
