-- ===== src/Turnoutput/Reducer/Reports.antt =====
-- turnoutput/reducer.go: what a terminal event reports, and that it reports once.
use go_agent_wrapper.Shared.{
  ℕ, zero, suc, ◌≤◌, Bytes, ==-refl, is_empty, ◌≡◌, ap, sym, ◌∙◌, true, false, Option, none, some,
  List, [], ◌∷◌, ◌++◌, length, keep_last, drop, ◌-◌, leb, lookup, get_last?, lookup-delete,
  length-append, Option-cases, Bool-cases, inl, inr, arith,
}
use go_agent_wrapper.Turnoutput.Output.{Output, terminal}
use go_agent_wrapper.Turnoutput.Turn.{Turn, new_turn}
use go_agent_wrapper.Turnoutput.Signals.{contains}
use go_agent_wrapper.Turnoutput.Reducer.{
  finished_memory, Reducer, or_if_empty, current, mint, was_finished,
}
use go_agent_wrapper.Turnoutput.Closing.{is_repeat, ending, settle, finish, end_turn}
use go_agent_wrapper.Turnoutput.Report.{StopReasons, Terminal, report, is_cut}
use go_agent_wrapper.Turnoutput.Reducer.Opening.{IsKept, contains-append}

contains-drop_last :
    (n : ℕ) (xs : List Bytes) (k : Bytes)
    → n ≤ length xs
    → contains (drop n (xs ++ k ∷ [])) k ≡ true
unfolding contains
contains-drop_last zero xs k h = ground (arith, contains-append xs (k ∷ []) k, ==-refl k)
contains-drop_last (suc n) [] k h = elim h [ ]
contains-drop_last (suc n) (x ∷ xs) k h = contains-drop_last n xs k (omega arith)

-- The newest id is kept.
contains-keep_last :
    (xs : List Bytes) (k : Bytes) → contains (keep_last finished_memory (xs ++ k ∷ [])) k ≡ true
unfolding keep_last
contains-keep_last xs k =
    let size = length-append xs (k ∷ []) in
    elim (Bool-cases (leb (length (xs ++ k ∷ [])) finished_memory)) [
      | inl e ↦ rw e (contains-drop_last 0 xs k (omega arith))
      | inr e ↦
          rw e (contains-drop_last (length (xs ++ k ∷ []) - finished_memory) xs k (omega arith))
    ]

settle-was_finished :
    (k : Bytes) (t : Turn) (term : Terminal) (r : Reducer)
    → t.id ≡ k
    → was_finished k (settle t term r) ≡ true
unfolding settle was_finished
settle-was_finished k t term r e = rw (← e) (contains-keep_last r.finished t.id)

settle-closed :
    (k : Bytes) (t : Turn) (term : Terminal) (r : Reducer)
    → t.id ≡ k
    → lookup k (settle t term r).open_turns ≡ none
unfolding settle
settle-closed k t term r e = rw (← e) (rw (lookup-delete, ==-refl))

-- The current turn is open.
current_open :
    (r : Reducer) (k : Bytes) → current r ≡ some k → (t : Turn) × (lookup k r.open_turns ≡ some t)
unfolding current
current_open r k e = elim (Option-cases (get_last? r.order)) [
  | inl bare ↦ absurd (ground (arith, e, bare))
  | inr (j, last) ↦ elim (Option-cases (lookup j r.open_turns)) [
    | inl f ↦ absurd (ground (arith, e, last, f))
    | inr (t, f) ↦ let same : j ≡ k = ground (arith, e, last, f) in (t, rw (← same) f)
  ]
]

module _ (reasons : StopReasons) where
  -- The turn that a terminal event with an id closes has that id.
  ending-id :
      (c : ℕ) (id : Bytes) (term : Terminal) (r : Reducer) (t : Turn)
      → IsKept r
      → (ending reasons (c ∷ id) term r).0 ≡ some t
      → t.id ≡ c ∷ id
  unfolding ending new_turn
  ending-id c id term r t h e = elim (Option-cases (lookup (c ∷ id) r.open_turns)) [
    | inr (u, f) ↦
        let same : u ≡ t = ground (arith, e, f) in
        ap (λ (v : Turn). v.id) (sym same) ∙ (h.consistent.turns (c ∷ id) u f).0
    | inl f ↦ ground (arith, e, f)
  ]

  ending-late :
      (c : ℕ) (id : Bytes) (term : Terminal) (r : Reducer)
      → lookup (c ∷ id) r.open_turns ≡ none
      → was_finished (c ∷ id) r ≡ true
      → ending reasons (c ∷ id) term r ≡ (none, r)
  unfolding ending
  ending-late c id term r closed late = rw (closed, ending) (rw late)

  -- A terminal event for a turn that is finished and not open reports nothing.
  pub end_turn-late :
      (c : ℕ) (id : Bytes) (term : Terminal) (r : Reducer)
      → lookup (c ∷ id) r.open_turns ≡ none
      → was_finished (c ∷ id) r ≡ true
      → end_turn reasons (c ∷ id) term r ≡ (none, r)
  unfolding end_turn
  end_turn-late c id term r closed late =
      let dropped = ending-late c id term r closed late in
      let keep : Option Turn × Reducer → Option Output × Reducer = λ p. (none, p.1) in
      rw (dropped, end_turn) (ap keep dropped)

  pub report-turn_id :
      (r : Reducer) (t : Turn) (term : Terminal) → (report reasons r t term).turn_id ≡ t.id
  unfolding report
  report-turn_id r t term = ground arith

  -- Where an Output is reported, some turn was closed, and finish made both.
  end_turn-some :
      (id : Bytes) (term : Terminal) (r : Reducer) (out : Output)
      → (end_turn reasons id term r).0 ≡ some out
      → (t : Turn) × ((ending reasons id term r).0 ≡ some t)
        × (report reasons (ending reasons id term r).1 t term ≡ out)
        × ((end_turn reasons id term r).1 ≡ settle t term (ending reasons id term r).1)
  unfolding end_turn finish
  end_turn-some id term r out e = elim (Option-cases (ending reasons id term r).0) [
    | inl f ↦ absurd (ground (arith, e, f))
    | inr (t, f) ↦ (t, f, ground (arith, e, f), ground (arith, e, f))
  ]

  -- Where a terminal event with a turn id ends a turn, the Output has that id, and any further
  -- terminal event with the id that comes next reports nothing and changes nothing.
  pub end_turn_once :
      (id : Bytes) (term again : Terminal) (r : Reducer) (out : Output)
      → is_empty id ≡ false
      → IsKept r
      → (end_turn reasons id term r).0 ≡ some out
      → (out.turn_id ≡ id)
        × (end_turn reasons id again (end_turn reasons id term r).1
            ≡ (none, (end_turn reasons id term r).1))
  end_turn_once [] term again r out named h e = cc
  end_turn_once (c ∷ id) term again r out named h e =
      let (t, closes, reports, after) = end_turn-some (c ∷ id) term r out e in
      let same = ending-id c id term r t h closes in
      let r' = (end_turn reasons (c ∷ id) term r).1 in
      let s = (ending reasons (c ∷ id) term r).1 in
      let closed : lookup (c ∷ id) r'.open_turns ≡ none =
        rw after (settle-closed (c ∷ id) t term s same) in
      let late : was_finished (c ∷ id) r' ≡ true =
        rw after (settle-was_finished (c ∷ id) t term s same) in
      (
        ap (λ (o : Output). o.turn_id) (sym reports) ∙ report-turn_id s t term ∙ same,
        end_turn-late c id again r' closed late,
      )

  is_cut-cancelled :
      (t : Turn) (term : Terminal)
      → is_empty reasons.cancelled ≡ false
      → term.stop_reason ≡ reasons.cancelled
      → is_cut reasons t term ≡ true
  unfolding is_cut
  is_cut-cancelled t term named e = rw (e, named) (ground (arith, ==-refl reasons.cancelled))

  report-cut :
      (r : Reducer) (t : Turn) (term : Terminal)
      → is_cut reasons t term ≡ true
      → (report reasons r t term).kind ≡ terminal
  unfolding report
  report-cut r t term e = rw e

  is_repeat-cancelled :
      (term : Terminal) (r : Reducer)
      → is_empty reasons.cancelled ≡ false
      → term.failed ≡ false
      → term.stop_reason ≡ reasons.cancelled
      → is_repeat reasons term r ≡ false
  unfolding is_repeat
  is_repeat-cancelled term r named completed e =
      rw (e, completed, named) (ground (arith, ==-refl reasons.cancelled))

  pub finish_reports :
      (id : Bytes) (term : Terminal) (r : Reducer) (t : Turn)
      → (ending reasons id term r).0 ≡ some t
      → (end_turn reasons id term r).0 ≡ some (report reasons (ending reasons id term r).1 t term)
  unfolding end_turn finish
  finish_reports id term r t e = rw (e, end_turn)

  ending-lone :
      (term : Terminal) (r : Reducer)
      → is_repeat reasons term r ≡ false
      → (t : Turn) × ((ending reasons [] term r).0 ≡ some t)
  unfolding ending
  ending-lone term r lone = elim (Option-cases (current r)) [
    | inl e ↦ (
      record (new_turn (mint r).0) { usage_stop = or_if_empty r.held_stop r.pending_stop },
      rw (e, ending) (rw lone),
    )
    | inr (k, e) ↦ let (t, f) = current_open r k e in (t, rw (e, ending) f)
  ]

  -- A completed turn's terminal event with the cancellation for its stop reason and with no turn
  -- id is always reported, as a turn cut short, whatever came before: no such event is taken for
  -- a repeat.
  pub cancelled_reported :
      (term : Terminal) (r : Reducer)
      → is_empty reasons.cancelled ≡ false
      → term.failed ≡ false
      → term.stop_reason ≡ reasons.cancelled
      → (out : Output) × ((end_turn reasons [] term r).0 ≡ some out) × (out.kind ≡ terminal)
  cancelled_reported term r named completed e =
      let (t, f) = ending-lone term r (is_repeat-cancelled term r named completed e) in
      (
        report reasons (ending reasons [] term r).1 t term,
        finish_reports [] term r t f,
        report-cut (ending reasons [] term r).1 t term (is_cut-cancelled t term named e),
      )
