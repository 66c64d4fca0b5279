-- ===== src/Tests/Turns.antt =====
-- turnoutput/reducer.go: turns at concrete inputs.
use go_agent_wrapper.Turnoutput.Feed.Late.{late_is_dropped, forgotten_is_reported}
use go_agent_wrapper.Turnoutput.Feed.History.{reported, finished_is_history}
use go_agent_wrapper.Turnoutput.Feed.{observe, on_delta}
use go_agent_wrapper.Turnoutput.Signals.{contains}
use go_agent_wrapper.Shared.{
  List, keep_last, delete, to_lower, ◌↔◌, bytes, ◌==◌, ◌≡◌, refl, true, false, none, some, [], ◌∷◌,
  trim_space, lookup, insert, arith,
}
use go_agent_wrapper.Turnoutput.Output.{Output, final, terminal, exact, heuristic}
use go_agent_wrapper.Turnoutput.Turn.{Turn}
use go_agent_wrapper.Turnoutput.Blocks.{boundary, add_delta, cut_utf8, pick}
use go_agent_wrapper.Turnoutput.Blocks.Bounds.{IsBounded, add_delta-IsBounded}
use go_agent_wrapper.Turnoutput.Blocks.Cut.{IsCut, cut_utf8-IsCut}
use go_agent_wrapper.Turnoutput.Blocks.Pick.{Picks, pick_iff}
use go_agent_wrapper.Turnoutput.Reducer.{finished_memory, in_body, Config, Reducer, new}
use go_agent_wrapper.Turnoutput.Closing.{flush, end_turn}
use go_agent_wrapper.Turnoutput.Report.{StopReasons, no_terminal}
use go_agent_wrapper.Turnoutput.Reducer.Opening.{IsKept}
use go_agent_wrapper.Turnoutput.Reducer.Reports.{end_turn_once, cancelled_reported}
use go_agent_wrapper.Turnoutput.Feed.Payload.{agent_delta, Event}
use go_agent_wrapper.Turnoutput.Feed.Kept.{Input, flushed, envelope, feed_all, feed_all-IsKept}

abbrev reasons : StopReasons
reasons = record { cancelled = bytes "cancelled"; error = bytes "error" }

abbrev cfg : Config
cfg = record {
  session_id = bytes "s";
  runtime = bytes "codex";
  new_turn_id = λ n. bytes "minted";
  question_tools = none;
}

abbrev delta_event : Event
delta_event = record {
  kind =
      agent_delta (
        some
          (record { content = bytes "ok"; text = []; phase = []; block_id = []; thinking = [] }));
  id = bytes "e";
  parent_id = [];
  session_id = bytes "s";
  turn_id = bytes "t";
  provider = bytes "codex";
}

-- A session with one open turn that said "ok".
abbrev running : Reducer
running = feed_all reasons (envelope delta_event ∷ []) (new cfg)

abbrev ok_output : Output
ok_output = record {
  session_id = bytes "s";
  turn_id = bytes "t";
  text = bytes "ok";
  kind = final;
  stop_reason = [];
  runtime = bytes "codex";
  confidence = heuristic;
}

running_ends : (end_turn reasons (bytes "t") no_terminal running).0 ≡ some ok_output
unfolding feed_all end_turn new lookup observe contains insert ◌==◌ on_delta to_lower trim_space
    add_delta cut_utf8
running_ends = refl

-- At a turn that said "ok", whose second terminal event comes again with an error.
end_turn_once_example :
    (ok_output.turn_id ≡ bytes "t")
    × (end_turn reasons
          (bytes "t")
          (record no_terminal { failed = true })
          (end_turn reasons (bytes "t") no_terminal running).1
        ≡ (none, (end_turn reasons (bytes "t") no_terminal running).1))
end_turn_once_example =
    end_turn_once reasons (bytes "t") no_terminal (record no_terminal { failed = true }) running
      ok_output refl (feed_all-IsKept reasons cfg (envelope delta_event ∷ [])) running_ends

-- At a session with one open turn.
feed_all-IsKept_example : IsKept running
feed_all-IsKept_example = feed_all-IsKept reasons cfg (envelope delta_event ∷ [])

-- At a turn that ends as cancelled.
cancelled_reported_example :
    (out : Output) × ((end_turn reasons []
        (record no_terminal { stop_reason = bytes "cancelled" })
        running).0
      ≡ some out)
    × (out.kind ≡ terminal)
cancelled_reported_example =
    cancelled_reported reasons (record no_terminal { stop_reason = bytes "cancelled" }) running refl
      refl refl

abbrev quiet : Turn
quiet = record {
  id = bytes "t";
  blocks = [];
  anon_open = false;
  usage_stop = [];
  nbytes = 0;
  seq = 0;
  tools = [];
  early = [];
  signals = [];
  pending = [];
}

quiet-IsBounded : IsBounded quiet
quiet-IsBounded = record {
  is_counted = record { counted = refl; fitting = tt; anon_block = λ e. ground (arith, e) };
  few = omega arith;
  short = omega arith;
}

-- At a delta to a turn without text.
add_delta-IsBounded_example : IsBounded (add_delta (bytes "ok") [] false quiet)
add_delta-IsBounded_example = add_delta-IsBounded (bytes "ok") [] false quiet quiet-IsBounded

-- At a text whose second character has two bytes, the second of which does not fit.
cut_utf8-IsCut_example : IsCut (97 ∷ 0xC3 ∷ 0xA9 ∷ []) 2 (cut_utf8 (97 ∷ 0xC3 ∷ 0xA9 ∷ []) 2)
cut_utf8-IsCut_example = cut_utf8-IsCut (97 ∷ 0xC3 ∷ 0xA9 ∷ []) 2

-- At a terminal text in place of no blocks.
pick_iff_example :
    (pick 0 (bytes "Done") quiet ≡ (bytes "Done", exact))
    ↔ Picks 0 (bytes "Done") quiet (bytes "Done", exact)
pick_iff_example = pick_iff 0 (bytes "Done") quiet (bytes "Done", exact)

-- A session whose turn said "ok" and then ended at the exit of the process.
abbrev ended_inputs : List Input
ended_inputs = envelope delta_event ∷ flushed (bytes "gone") ∷ []

-- At a session with one report.
finished_is_history_example :
    (feed_all reasons ended_inputs (new cfg)).finished
    ≡ keep_last finished_memory (reported reasons ended_inputs (new cfg))
finished_is_history_example = finished_is_history reasons cfg ended_inputs

ended_closed : lookup (bytes "t") (feed_all reasons ended_inputs (new cfg)).open_turns ≡ none
unfolding feed_all flush new lookup observe contains insert delete ◌==◌ on_delta to_lower trim_space
    add_delta cut_utf8 keep_last
ended_closed = refl

ended_recent :
    contains (keep_last finished_memory (reported reasons ended_inputs (new cfg))) (bytes "t")
    ≡ true
unfolding feed_all flush new lookup observe contains insert delete ◌==◌ on_delta to_lower trim_space
    add_delta cut_utf8 keep_last
ended_recent = refl

ended_no_other :
    contains (keep_last finished_memory (reported reasons ended_inputs (new cfg))) (bytes "u")
    ≡ false
unfolding feed_all flush new lookup observe contains insert delete ◌==◌ on_delta to_lower trim_space
    add_delta cut_utf8 keep_last
ended_no_other = refl

ended_no_other_open : lookup (bytes "u") (feed_all reasons ended_inputs (new cfg)).open_turns ≡ none
unfolding feed_all flush new lookup observe contains insert delete ◌==◌ on_delta to_lower trim_space
    add_delta cut_utf8 keep_last
ended_no_other_open = refl

-- At a late delta and a late terminal event.
late_is_dropped_example :
    (in_body (bytes "t") boundary (feed_all reasons ended_inputs (new cfg))
      ≡ feed_all reasons ended_inputs (new cfg))
    × (end_turn reasons (bytes "t") no_terminal (feed_all reasons ended_inputs (new cfg))
        ≡ (none, feed_all reasons ended_inputs (new cfg)))
late_is_dropped_example =
    late_is_dropped reasons cfg ended_inputs (bytes "t") boundary no_terminal refl ended_closed
      ended_recent

-- At a terminal event for another turn.
forgotten_is_reported_example :
    (out : Output) × ((end_turn reasons
        (bytes "u")
        no_terminal
        (feed_all reasons ended_inputs (new cfg))).0
      ≡ some out)
    × (out.turn_id ≡ bytes "u")
forgotten_is_reported_example =
    forgotten_is_reported reasons cfg ended_inputs (bytes "u") no_terminal refl ended_no_other_open
      ended_no_other
