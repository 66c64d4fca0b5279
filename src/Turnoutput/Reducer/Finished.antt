-- ===== src/Turnoutput/Reducer/Finished.antt =====
-- turnoutput/reducer.go: which operations add to the ids of the finished turns.
use go_agent_wrapper.Turnoutput.Reducer.Reports.{report-turn_id}
use go_agent_wrapper.Turnoutput.Reducer.Opening.{opened}
use go_agent_wrapper.Shared.{
  Bytes, ◌≡◌, refl, ap, ◌∙◌, Option, none, some, List, [], ◌∷◌, ◌++◌, lookup, delete, keep_last,
  Option-cases, Bool-cases, inl, inr, arith,
}
use go_agent_wrapper.Turnoutput.Output.{Output}
use go_agent_wrapper.Turnoutput.Turn.{Turn}
use go_agent_wrapper.Turnoutput.Reducer.{
  finished_memory, Reducer, current, evict_loop, begin, mint, was_finished, body, update_turn,
  in_body, note_stop,
}
use go_agent_wrapper.Turnoutput.Closing.{
  ending, is_repeat, settle, finish, end_turn, flush, flush_terminal,
}
use go_agent_wrapper.Turnoutput.Report.{StopReasons, Terminal, report}

evict_loop-finished : (ks : List Bytes) (r : Reducer) → (evict_loop ks r).finished ≡ r.finished
unfolding evict_loop
evict_loop-finished [] r = refl
evict_loop-finished (k ∷ ks) r =
    let rest =
      evict_loop-finished ks (record r { open_turns = delete k r.open_turns; order = ks }) in
    ground (arith, rest)

begin-finished : (id : Bytes) (r : Reducer) → (begin id r).finished ≡ r.finished
unfolding begin
begin-finished id r = evict_loop-finished (opened id r).order (opened id r)

update_turn-finished :
    (k : Bytes) (f : Turn → Turn) (r : Reducer) → (update_turn k f r).finished ≡ r.finished
unfolding update_turn
update_turn-finished k f r = elim (Option-cases (lookup k r.open_turns)) [
  | inl e ↦ rw (e, update_turn) refl
  | inr (t, e) ↦ rw (e, update_turn) refl
]

mint-finished : (r : Reducer) → (mint r).1.finished ≡ r.finished
unfolding mint
mint-finished r = refl

pub body-finished : (id : Bytes) (r : Reducer) → (body id r).1.finished ≡ r.finished
unfolding body
body-finished [] r = elim (Option-cases (current r)) [
  | inr (k, e) ↦ rw (e, body) refl
  | inl e ↦ rw (e, body) (begin-finished (mint r).0 (mint r).1 ∙ mint-finished r)
]
body-finished (c ∷ id) r = elim (Option-cases (lookup (c ∷ id) r.open_turns)) [
  | inr (t, e) ↦ rw (e, body) refl
  | inl e ↦ elim (Bool-cases (was_finished (c ∷ id) r)) [
    | inl late ↦ rw (e, body) (rw late refl)
    | inr early ↦ rw (e, body) (rw early (begin-finished (c ∷ id) r))
  ]
]

pub in_body-finished :
    (id : Bytes) (f : Turn → Turn) (r : Reducer) → (in_body id f r).finished ≡ r.finished
unfolding in_body
in_body-finished id f r = elim (Option-cases (body id r).0) [
  | inl e ↦ rw (e, in_body) (body-finished id r)
  | inr (k, e) ↦ rw (e, in_body) (update_turn-finished k f (body id r).1 ∙ body-finished id r)
]

pub note_stop-finished : (stop : Bytes) (r : Reducer) → (note_stop stop r).finished ≡ r.finished
unfolding note_stop
note_stop-finished [] r = refl
note_stop-finished (c ∷ stop) r = elim (Option-cases (current r)) [
  | inr (k, e) ↦ rw (e, note_stop) (update_turn-finished k _ r)
  | inl e ↦ elim (Bool-cases r.settled) [
    | inl s ↦ rw (e, note_stop) (rw s refl)
    | inr s ↦ rw (e, note_stop) (rw s refl)
  ]
]

-- The ids of the finished turns after an operation that reports an Output or none.
abbrev pub noted : Option Output → List Bytes → List Bytes
noted none ids = ids
noted (some out) ids = keep_last finished_memory (ids ++ out.turn_id ∷ [])

-- An operation that keeps the record of what it reports.
abbrev pub Notes : (Option Output × Reducer) → Reducer → Type 0
Notes p r = p.1.finished ≡ noted p.0 r.finished

module _ (reasons : StopReasons) where
  pub finish-Notes : (t : Turn) (term : Terminal) (r : Reducer) → Notes (finish reasons t term r) r
  unfolding finish settle
  finish-Notes t term r = rw (report-turn_id reasons r t term) refl

  ending-finished :
      (id : Bytes) (term : Terminal) (r : Reducer)
      → (ending reasons id term r).1.finished ≡ r.finished
  unfolding ending
  ending-finished [] term r = elim (Option-cases (current r)) [
    | inr (k, e) ↦ rw (e, ending) refl
    | inl e ↦ elim (Bool-cases (is_repeat reasons term r)) [
      | inl again ↦ rw (e, ending) (rw again refl)
      | inr once ↦ rw (e, ending) (rw once (mint-finished r))
    ]
  ]
  ending-finished (c ∷ id) term r = elim (Option-cases (lookup (c ∷ id) r.open_turns)) [
    | inr (t, e) ↦ rw (e, ending) refl
    | inl e ↦ elim (Bool-cases (was_finished (c ∷ id) r)) [
      | inl late ↦ rw (e, ending) (rw late refl)
      | inr early ↦ rw (e, ending) (rw early refl)
    ]
  ]

  pub end_turn-Notes :
      (id : Bytes) (term : Terminal) (r : Reducer) → Notes (end_turn reasons id term r) r
  unfolding end_turn
  end_turn-Notes id term r = elim (Option-cases (ending reasons id term r).0) [
    | inl e ↦ rw (e, end_turn) (ending-finished id term r)
    | inr (t, e) ↦
        rw (e, end_turn)
          (finish-Notes t term (ending reasons id term r).1
            ∙ ap (noted (some (report reasons (ending reasons id term r).1 t term)))
                (ending-finished id term r))
  ]

  pub flush-Notes : (reason : Bytes) (r : Reducer) → Notes (flush reasons reason r) r
  unfolding flush
  flush-Notes reason r = elim (Option-cases (current r)) [
    | inl e ↦ rw (e, flush) refl
    | inr (k, e) ↦ elim (Option-cases (lookup k r.open_turns)) [
      | inl f ↦ rw (e, flush) (rw (f, flush) refl)
      | inr (t, f) ↦ rw (e, flush) (rw (f, flush) (finish-Notes t (flush_terminal reason) r))
    ]
  ]
