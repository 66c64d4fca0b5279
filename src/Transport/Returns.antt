-- ===== src/Transport/Returns.antt =====
-- acp/transport.go: what Coordinate returns, and that it does.
use go_agent_wrapper.Shared.{
  ◌≡◌, refl, Bool, true, false, not, ◌&&◌, Option, none, some, List, [], ◌∷◌, is_some, ◌∙◌, subst,
  if◌then◌else◌, arith,
}
use go_agent_wrapper.Transport.{
  ReadResult, ProcessResult, Outcome, Place, first, has_process, has_read, stopped, killed,
  returned, Termination, new, report_read, report_process, no_process, receive_read,
  receive_process, time_out, Action, reports_read, reports_process, receives_read, receives_process,
  times_out, step, run,
}
use go_agent_wrapper.Transport.Joined.{
  or_read, or_process, first_read, first_process, calls_of, Got, IsJoined, report_read-Got,
  report_process-Got, receive_read-Got, receive_process-Got, time_out-Got, Received,
}

-- The marks of the two reports.
abbrev Marked : Termination → Option ReadResult → Option ProcessResult → Type 0
Marked t reads processes = (t.read_once ≡ is_some reads) × (t.process_once ≡ is_some processes)

step-Marked :
    (a : Action) (t : Termination) (reads : Option ReadResult) (processes : Option ProcessResult)
    → Marked t reads processes
    → Marked (step a t) (or_read reads a) (or_process processes a)
unfolding step report_read report_process receive_read receive_process time_out
step-Marked (reports_read r) t none processes m = ground (arith, m.0, m.1)
step-Marked (reports_read r) t (some q) processes m = ground (arith, m.0, m.1)
step-Marked (reports_process p) t reads none m = ground (arith, m.0, m.1)
step-Marked (reports_process p) t reads (some q) m = ground (arith, m.0, m.1)
step-Marked receives_read t reads processes m = ground (arith, m.0, m.1)
step-Marked receives_process t reads processes m = ground (arith, m.0, m.1)
step-Marked times_out t reads processes m = ground (arith, m.0, m.1)

report_place :
    (r : ReadResult) (p : ProcessResult) (t : Termination)
    → ((report_read r t).place ≡ t.place) × ((report_process p t).place ≡ t.place)
unfolding report_read report_process
report_place r p t = (ground arith, ground arith)

step-Got :
    (a : Action) (t : Termination) (reads : Option ReadResult) (processes : Option ProcessResult)
    → IsJoined t reads processes
    → Received (step a t) (or_read reads a) (or_process processes a)
unfolding step
step-Got (reports_read r) t reads processes h =
    rw ((report_place r no_process t).0)
      (report_read-Got r t.place t reads processes h.read_seen h.got)
step-Got (reports_process p) t reads processes h =
    rw ((report_place (record { malformed = false; err = none }) p t).1)
      (report_process-Got p t.place t reads processes h.process_seen h.got)
step-Got receives_read t reads processes h =
    receive_read-Got t.read_done t reads processes refl h.got
step-Got receives_process t reads processes h =
    receive_process-Got t.process_done t reads processes refl h.got
step-Got times_out t reads processes h = time_out-Got t.place t reads processes refl h.got

step-IsJoined :
    (a : Action) (t : Termination) (reads : Option ReadResult) (processes : Option ProcessResult)
    → IsJoined t reads processes
    → IsJoined (step a t) (or_read reads a) (or_process processes a)
step-IsJoined a t reads processes h =
    let m = step-Marked a t reads processes (h.read_seen, h.process_seen) in
    record { read_seen = m.0; process_seen = m.1; got = step-Got a t reads processes h }

pub run-IsJoined :
    (actions : List Action) (t : Termination) (reads : Option ReadResult)
    (processes : Option ProcessResult)
    → IsJoined t reads processes
    → IsJoined (run actions t) (first_read reads actions) (first_process processes actions)
unfolding run
run-IsJoined [] t reads processes h = h
run-IsJoined (a ∷ rest) t reads processes h =
    run-IsJoined rest (step a t) (or_read reads a) (or_process processes a)
      (step-IsJoined a t reads processes h)

kept_step :
    (a : Action) (t : Termination)
    → ((step a t).process_expected ≡ t.process_expected)
      × ((step a t).has_stop ≡ t.has_stop)
      × ((step a t).has_kill ≡ t.has_kill)
unfolding step report_read report_process receive_read receive_process time_out
kept_step (reports_read r) t = ground arith
kept_step (reports_process p) t = ground arith
kept_step receives_read t = ground arith
kept_step receives_process t = ground arith
kept_step times_out t = ground arith

kept_args :
    (actions : List Action) (t : Termination)
    → ((run actions t).process_expected ≡ t.process_expected)
      × ((run actions t).has_stop ≡ t.has_stop)
      × ((run actions t).has_kill ≡ t.has_kill)
unfolding run
kept_args [] t = (refl, refl, refl)
kept_args (a ∷ rest) t =
    let (x, y, z) = kept_args rest (step a t) in
    let (u, v, w) = kept_step a t in (x ∙ u, y ∙ v, z ∙ w)

pub new-IsJoined :
    (expected has_stop has_kill : Bool) → IsJoined (new expected has_stop has_kill) none none
new-IsJoined expected has_stop has_kill = record {
  read_seen = refl;
  process_seen = refl;
  got = (refl, refl, refl);
}

told :
    (t : Termination) (o : Outcome) (reads : Option ReadResult) (processes : Option ProcessResult)
    → t.place ≡ returned o
    → Got t.place t reads processes
    → Got (returned o) t reads processes
told t o reads processes at h = subst (λ place. Got place t reads processes) at h

-- Coordinate joins the two sides: in every order of reports, receives and timeouts, what it returns
-- is the first report of the reader and, where a process is expected, the first report of the
-- process (else the zero result); stop was called exactly when the result says disconnected, and kill
-- exactly when it says killed, each once, in this order and where it is given; killed only if
-- disconnected, and disconnected only if the reader ended first.
pub coordinate_joins :
    (expected has_stop has_kill : Bool) (actions : List Action) (o : Outcome)
    → (run actions (new expected has_stop has_kill)).place ≡ returned o
    → (first_read none actions ≡ some o.read)
      × ((if expected then first_process none actions else some no_process) ≡ some o.process)
      × ((run actions (new expected has_stop has_kill)).calls
          ≡ calls_of has_stop has_kill o.disconnected o.killed_after_read)
      × ((o.killed_after_read && not o.disconnected) ≡ false)
      × ((o.disconnected && not o.read_before_process) ≡ false)
coordinate_joins expected has_stop has_kill actions o at =
    let t = run actions (new expected has_stop has_kill) in
    let h =
      run-IsJoined actions (new expected has_stop has_kill) none none
        (new-IsJoined expected has_stop has_kill) in
    let (same, reads, processes, calls, killed_so, disconnected_so) =
      told t o (first_read none actions) (first_process none actions) at h.got in
    let (x, y, z) = kept_args actions (new expected has_stop has_kill) in
    (
      reads,
      subst (λ b. (if b then first_process none actions else some no_process) ≡ some o.process)
          (same ∙ x) processes,
      calls ∙ (rw (y, z) refl),
      killed_so,
      disconnected_so,
    )

abbrev pub is_returned : Place → Bool
is_returned (returned o) = true
is_returned first = false
is_returned (has_process p) = false
is_returned (has_read r) = false
is_returned (stopped r) = false
is_returned (killed r) = false

abbrev pub last_receives : List Action
last_receives = receives_process ∷ receives_read ∷ receives_process ∷ []

both_there :
    (place : Place) (t : Termination) (r : ReadResult) (p : ProcessResult)
    → t.place ≡ place
    → Got place t (some r) (some p)
    → is_returned (run last_receives t).place ≡ true
unfolding run step receive_read receive_process
both_there first t r p at h = ground (arith, at, h)
both_there (has_process q) t r p at h = ground (arith, at, h)
both_there (has_read q) t r p at h = ground (arith, at, h)
both_there (stopped q) t r p at h = ground (arith, at, h)
both_there (killed q) t r p at h = ground (arith, at, h)
both_there (returned o) t r p at h = ground (arith, at, h)

-- Coordinate returns: after every sequence of steps in which the reader and the process have both
-- reported, at most three more receives end it, wherever it is.
pub coordinate_returns :
    (expected has_stop has_kill : Bool) (actions : List Action) (r : ReadResult) (p : ProcessResult)
    → first_read none actions ≡ some r
    → first_process none actions ≡ some p
    → is_returned (run last_receives (run actions (new expected has_stop has_kill))).place ≡ true
coordinate_returns expected has_stop has_kill actions r p read process =
    let t = run actions (new expected has_stop has_kill) in
    let h =
      run-IsJoined actions (new expected has_stop has_kill) none none
        (new-IsJoined expected has_stop has_kill) in
    both_there t.place t r p refl (
      subst (λ x. Got t.place t (some r) x) process
        (subst (λ x. Got t.place t x (first_process none actions)) read h.got))
