-- ===== src/Turnoutput/Closing.antt =====
-- turnoutput/reducer.go: how turns end, ending, the first half of finish, and Flush.
use go_agent_wrapper.Shared.{
  Bytes, ◌==◌, is_empty, trim_space, Bool, true, not, ◌&&◌, Option, none, some, List, [], ◌∷◌, ◌++◌,
  keep_last, lookup, delete, if◌then◌else◌,
}
use go_agent_wrapper.Turnoutput.Output.{Output}
use go_agent_wrapper.Turnoutput.Turn.{Turn, new_turn}
use go_agent_wrapper.Turnoutput.Reducer.{
  Reducer, finished_memory, same_signature, current, mint, was_finished, or_if_empty,
}
use go_agent_wrapper.Turnoutput.Report.{
  reason_process_exited, StopReasons, Terminal, no_terminal, stop_of, report,
}

-- The first loop of finish over `order`: one entry goes.
unfoldable pub remove_first : Bytes → List Bytes → List Bytes
remove_first k [] = []
remove_first k (j ∷ js) = let rest = remove_first k js in if j == k then js else j ∷ rest

-- What finish does to the reducer.
unfoldable pub settle : Turn → Terminal → Reducer → Reducer
unfolding remove_first
settle t term r = record r {
  open_turns = delete t.id r.open_turns;
  order = remove_first t.id r.order;
  finished = keep_last finished_memory (r.finished ++ t.id ∷ []);
  settled = is_empty (remove_first t.id r.order);
  pending_stop = [];
  held_stop = [];
  last_error = if term.failed then trim_space term.err_text else r.last_error;
  last_done =
      if term.failed
      then record { stop = []; text = [] }
      else record { stop = stop_of t term; text = trim_space term.text };
}

-- The terminal event that Flush makes up.
abbrev pub flush_terminal : Bytes → Terminal
flush_terminal reason = record no_terminal {
  failed = true;
  cut = true;
  reason = if is_empty (trim_space reason) then reason_process_exited else reason;
}

module _ (reasons : StopReasons) where
  -- The switch of ending, for a terminal event with no id and no turn open.
  unfoldable pub is_repeat : Terminal → Reducer → Bool
  is_repeat term r =
      r.settled
      && (if term.failed
          then not (is_empty (trim_space term.err_text)) && trim_space term.err_text == r.last_error
          else not (or_if_empty term.stop_reason r.held_stop == reasons.cancelled)
            && same_signature r.last_done (record {
              stop = or_if_empty term.stop_reason r.held_stop;
              text = trim_space term.text;
            }))

  -- The turn that a terminal event closes; none where it repeats one already reported.
  unfoldable pub ending : Bytes → Terminal → Reducer → Option Turn × Reducer
  unfolding current was_finished is_repeat mint new_turn
  ending (c ∷ id) term r = elim (lookup (c ∷ id) r.open_turns) [
    | some t ↦ (some t, r)
    | none ↦ if was_finished (c ∷ id) r then (none, r) else (some (new_turn (c ∷ id)), r)
  ]
  ending [] term r = elim (current r) [
    | some k ↦ (lookup k r.open_turns, r)
    | none ↦ if is_repeat term r then (none, r) else (
      some (record (new_turn (mint r).0) { usage_stop = or_if_empty r.held_stop r.pending_stop }),
      record ((mint r).1) { pending_stop = []; held_stop = [] },
    )
  ]

  unfoldable pub finish : Turn → Terminal → Reducer → Option Output × Reducer
  unfolding report settle
  finish t term r = (some (report reasons r t term), settle t term r)

  -- `t, ok := r.ending(id, term)`, and finish where ok.
  unfoldable pub end_turn : Bytes → Terminal → Reducer → Option Output × Reducer
  unfolding ending finish
  end_turn id term r =
      let (t, r') = ending id term r in elim t [ none ↦ (none, r') | some u ↦ finish u term r' ]

  unfoldable pub flush : Bytes → Reducer → Option Output × Reducer
  unfolding current finish
  flush reason r = elim (current r) [
    | none ↦ (none, r)
    | some k ↦ elim (lookup k r.open_turns) [
      | none ↦ (none, r)
      | some t ↦ finish t (flush_terminal reason) r
    ]
  ]
