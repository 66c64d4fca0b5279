-- ===== src/Turnoutput/Reducer/Endings.antt =====
-- turnoutput/reducer.go: the end of a turn keeps the invariant of the Reducer.
use go_agent_wrapper.Shared.{
  Bytes, refl, [], ◌∷◌, ◌++◌, length-keep_last, lookup, lookup-delete, Option-cases, Bool-cases,
  inl, inr, arith,
}
use go_agent_wrapper.Turnoutput.Turn.{Turn}
use go_agent_wrapper.Turnoutput.Reducer.{finished_memory, Reducer, current, was_finished}
use go_agent_wrapper.Turnoutput.Closing.{
  ending, is_repeat, flush_terminal, settle, finish, end_turn, flush,
}
use go_agent_wrapper.Turnoutput.Report.{StopReasons, Terminal}
use go_agent_wrapper.Turnoutput.Reducer.Invariant.{IsKept-same}
use go_agent_wrapper.Turnoutput.Reducer.Opening.{
  IsKept, contains-remove_first, NoDup-remove_first, length-remove_first,
}

settle-IsKept : (t : Turn) (term : Terminal) (r : Reducer) → IsKept r → IsKept (settle t term r)
unfolding settle
settle-IsKept t term r h = record {
  consistent = record {
    keys = λ j. rw lookup-delete (
        ground
          (arith, contains-remove_first t.id j r.order h.consistent.distinct, h.consistent.keys j));
    distinct = NoDup-remove_first t.id r.order h.consistent.distinct;
    turns = λ j u found.
        h.consistent.turns j u (ground (arith, found, lookup-delete t.id j r.open_turns));
  };
  few_open = omega (arith, h.few_open, length-remove_first t.id r.order);
  few_finished = length-keep_last finished_memory (r.finished ++ t.id ∷ []);
}

module _ (reasons : StopReasons) where
  ending-IsKept :
      (id : Bytes) (term : Terminal) (r : Reducer) → IsKept r → IsKept (ending reasons id term r).1
  unfolding ending
  ending-IsKept (c ∷ id) term r h = elim (Option-cases (lookup (c ∷ id) r.open_turns)) [
    | inr (t, e) ↦ rw (e, ending) h
    | inl e ↦ elim (Bool-cases (was_finished (c ∷ id) r)) [
      | inl late ↦ rw (e, ending) (rw late h)
      | inr early ↦ rw (e, ending) (rw early h)
    ]
  ]
  ending-IsKept [] term r h = elim (Option-cases (current r)) [
    | inr (k, e) ↦ rw (e, ending) h
    | inl e ↦ elim (Bool-cases (is_repeat reasons term r)) [
      | inl again ↦ rw (e, ending) (rw again h)
      | inr lone ↦ rw (e, ending) (rw lone (IsKept-same r _ refl refl refl h))
    ]
  ]

  pub finish-IsKept :
      (t : Turn) (term : Terminal) (r : Reducer) → IsKept r → IsKept (finish reasons t term r).1
  unfolding finish
  finish-IsKept t term r h = settle-IsKept t term r h

  pub end_turn-IsKept :
      (id : Bytes) (term : Terminal) (r : Reducer)
      → IsKept r
      → IsKept (end_turn reasons id term r).1
  unfolding end_turn
  end_turn-IsKept id term r h =
      let h' = ending-IsKept id term r h in
      elim (Option-cases (ending reasons id term r).0) [
        | inl e ↦ rw (e, end_turn) h'
        | inr (t, e) ↦ rw (e, end_turn) (finish-IsKept t term (ending reasons id term r).1 h')
      ]

  pub flush-IsKept : (reason : Bytes) (r : Reducer) → IsKept r → IsKept (flush reasons reason r).1
  unfolding flush
  flush-IsKept reason r h = elim (Option-cases (current r)) [
    | inl e ↦ rw (e, flush) h
    | inr (k, e) ↦ elim (Option-cases (lookup k r.open_turns)) [
      | inl f ↦ rw (e, flush) (rw (f, flush) h)
      | inr (t, f) ↦ rw (e, flush) (rw (f, flush) (finish-IsKept t (flush_terminal reason) r h))
    ]
  ]
