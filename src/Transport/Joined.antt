-- ===== src/Transport/Joined.antt =====
-- acp/transport.go: what Coordinate has of the reports, at each of its places.
use go_agent_wrapper.Shared.{
  ◌≡◌, refl, Bool, true, false, not, ◌&&◌, Option, none, some, List, [], ◌∷◌, ◌++◌, is_some,
  if◌then◌else◌, arith,
}
use go_agent_wrapper.Transport.{
  ReadResult, ProcessResult, Place, first, has_process, has_read, stopped, killed, returned, Call,
  stop, kill, Termination, report_read, report_process, no_process, place_read, place_process,
  put_read, put_process, receive_read, receive_process, time_out, Action, reports_read,
  reports_process, receives_read, receives_process, times_out,
}

-- The first report, if there was one before or is one now.
abbrev pub keep_first : {A : Type 0} → Option A → A → Option A
keep_first none a = some a
keep_first (some old) a = some old

abbrev pub or_read : Option ReadResult → Action → Option ReadResult
or_read seen (reports_read r) = keep_first seen r
or_read seen (reports_process p) = seen
or_read seen receives_read = seen
or_read seen receives_process = seen
or_read seen times_out = seen

abbrev pub or_process : Option ProcessResult → Action → Option ProcessResult
or_process seen (reports_process p) = keep_first seen p
or_process seen (reports_read r) = seen
or_process seen receives_read = seen
or_process seen receives_process = seen
or_process seen times_out = seen

abbrev pub first_read : Option ReadResult → List Action → Option ReadResult
first_read seen [] = seen
first_read seen (a ∷ rest) = first_read (or_read seen a) rest

abbrev pub first_process : Option ProcessResult → List Action → Option ProcessResult
first_process seen [] = seen
first_process seen (a ∷ rest) = first_process (or_process seen a) rest

-- The calls of Coordinate that its result tells of.
abbrev pub calls_of : Bool → Bool → Bool → Bool → List Call
calls_of has_stop has_kill disconnected killed_after_read =
    (if disconnected && has_stop then stop ∷ [] else [])
    ++ (if killed_after_read && has_kill then kill ∷ [] else [])

-- What Coordinate has of the two reports, and what is left in the channels.
abbrev pub Got : Place → Termination → Option ReadResult → Option ProcessResult → Type 0
Got first t reads processes = (t.read_done ≡ reads) × (t.process_done ≡ processes) × (t.calls ≡ [])
Got (has_process p) t reads processes =
    (t.process_expected ≡ true) × (t.read_done ≡ reads) × (processes ≡ some p) × (t.calls ≡ [])
Got (has_read r) t reads processes =
    (t.process_expected ≡ true) × (reads ≡ some r) × (t.process_done ≡ processes) × (t.calls ≡ [])
Got (stopped r) t reads processes =
    (t.process_expected ≡ true)
    × (reads ≡ some r)
    × (t.process_done ≡ processes)
    × (t.calls ≡ calls_of t.has_stop t.has_kill true false)
Got (killed r) t reads processes =
    (t.process_expected ≡ true)
    × (reads ≡ some r)
    × (t.process_done ≡ processes)
    × (t.calls ≡ calls_of t.has_stop t.has_kill true true)
Got (returned o) t reads processes =
    (o.process_expected ≡ t.process_expected)
    × (reads ≡ some o.read)
    × ((if o.process_expected then processes else some no_process) ≡ some o.process)
    × (t.calls ≡ calls_of t.has_stop t.has_kill o.disconnected o.killed_after_read)
    × ((o.killed_after_read && not o.disconnected) ≡ false)
    × ((o.disconnected && not o.read_before_process) ≡ false)

pub record IsJoined (t : Termination) (reads : Option ReadResult) (processes : Option ProcessResult)
    : Type 0 where
  pub read_seen : t.read_once ≡ is_some reads
  pub process_seen : t.process_once ≡ is_some processes
  pub got : Got t.place t reads processes

pub report_read-Got :
    (r : ReadResult) (place : Place) (t : Termination) (reads : Option ReadResult)
    (processes : Option ProcessResult)
    → t.read_once ≡ is_some reads
    → Got place t reads processes
    → Got place (report_read r t) (or_read reads (reports_read r)) processes
unfolding report_read
report_read-Got r first t none processes e h = ground (arith, e, h)
report_read-Got r first t (some q) processes e h = ground (arith, e, h)
report_read-Got r (has_process p) t none processes e h = ground (arith, e, h)
report_read-Got r (has_process p) t (some q) processes e h = ground (arith, e, h)
report_read-Got r (has_read x) t reads processes e h = ground (arith, e, h)
report_read-Got r (stopped x) t reads processes e h = ground (arith, e, h)
report_read-Got r (killed x) t reads processes e h = ground (arith, e, h)
report_read-Got r (returned o) t reads processes e h = ground (arith, e, h)

pub report_process-Got :
    (p : ProcessResult) (place : Place) (t : Termination) (reads : Option ReadResult)
    (processes : Option ProcessResult)
    → t.process_once ≡ is_some processes
    → Got place t reads processes
    → Got place (report_process p t) reads (or_process processes (reports_process p))
unfolding report_process
report_process-Got p first t reads none e h = ground (arith, e, h)
report_process-Got p first t reads (some q) e h = ground (arith, e, h)
report_process-Got p (has_process x) t reads processes e h = ground (arith, e, h)
report_process-Got p (has_read x) t reads none e h = ground (arith, e, h)
report_process-Got p (has_read x) t reads (some q) e h = ground (arith, e, h)
report_process-Got p (stopped x) t reads none e h = ground (arith, e, h)
report_process-Got p (stopped x) t reads (some q) e h = ground (arith, e, h)
report_process-Got p (killed x) t reads none e h = ground (arith, e, h)
report_process-Got p (killed x) t reads (some q) e h = ground (arith, e, h)
report_process-Got p (returned o) t reads processes e h = ground (arith, e, h)

-- After a receive, at the place where Coordinate is then.
abbrev pub Received : Termination → Option ReadResult → Option ProcessResult → Type 0
Received t reads processes = Got t.place t reads processes

put_read-Got :
    (r : ReadResult) (expected : Bool) (place : Place) (t : Termination) (reads : Option ReadResult)
    (processes : Option ProcessResult)
    → t.process_expected ≡ expected
    → t.place ≡ place
    → t.read_done ≡ some r
    → Got place t reads processes
    → Received (put_read (place_read expected r place) t) reads processes
put_read-Got r false first t reads processes x at e h = ground (arith, x, e, h)
put_read-Got r true first t reads processes x at e h = ground (arith, x, e, h)
put_read-Got r false (has_process p) t reads processes x at e h = ground (arith, x, e, h)
put_read-Got r true (has_process p) t reads processes x at e h = ground (arith, x, e, h)
put_read-Got r expected (has_read q) t reads processes x at e h = rw at h
put_read-Got r expected (stopped q) t reads processes x at e h = rw at h
put_read-Got r expected (killed q) t reads processes x at e h = rw at h
put_read-Got r expected (returned o) t reads processes x at e h = rw at h

put_process-Got :
    (p : ProcessResult) (expected : Bool) (place : Place) (t : Termination)
    (reads : Option ReadResult) (processes : Option ProcessResult)
    → t.process_expected ≡ expected
    → t.place ≡ place
    → t.process_done ≡ some p
    → Got place t reads processes
    → Received (put_process (place_process expected p place) t) reads processes
put_process-Got p false first t reads processes x at e h = rw at h
put_process-Got p true first t reads processes x at e h = ground (arith, x, e, h)
put_process-Got p expected (has_process q) t reads processes x at e h = rw at h
put_process-Got p expected (has_read r) t reads processes x at e h = ground (arith, x, e, h)
put_process-Got p expected (stopped r) t reads processes x at e h = ground (arith, x, e, h)
put_process-Got p expected (killed r) t reads processes x at e h = ground (arith, x, e, h)
put_process-Got p expected (returned o) t reads processes x at e h = rw at h

pub time_out-Got :
    (place : Place) (t : Termination) (reads : Option ReadResult) (processes : Option ProcessResult)
    → t.place ≡ place
    → Got place t reads processes
    → Received (time_out place t) reads processes
unfolding time_out
time_out-Got first t reads processes at h = rw at h
time_out-Got (has_process p) t reads processes at h = rw at h
time_out-Got (has_read r) t reads processes at h = ground (arith, h)
time_out-Got (stopped r) t reads processes at h = ground (arith, h)
time_out-Got (killed r) t reads processes at h = rw at h
time_out-Got (returned o) t reads processes at h = rw at h

pub receive_read-Got :
    (o : Option ReadResult) (t : Termination) (reads : Option ReadResult)
    (processes : Option ProcessResult)
    → t.read_done ≡ o
    → Got t.place t reads processes
    → Received (receive_read o t) reads processes
unfolding receive_read
receive_read-Got none t reads processes e h = h
receive_read-Got (some r) t reads processes e h =
    put_read-Got r t.process_expected t.place t reads processes refl refl e h

pub receive_process-Got :
    (o : Option ProcessResult) (t : Termination) (reads : Option ReadResult)
    (processes : Option ProcessResult)
    → t.process_done ≡ o
    → Got t.place t reads processes
    → Received (receive_process o t) reads processes
unfolding receive_process
receive_process-Got none t reads processes e h = h
receive_process-Got (some p) t reads processes e h =
    put_process-Got p t.process_expected t.place t reads processes refl refl e h
