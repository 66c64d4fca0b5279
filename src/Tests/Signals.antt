-- ===== src/Tests/Signals.antt =====
-- turnoutput/signals.go: signals and tool calls at concrete inputs.
use go_agent_wrapper.Shared.{bytes, ◌==◌, ◌≡◌, refl, true, false, [], ◌∷◌, lookup, get_last?, arith}
use go_agent_wrapper.Turnoutput.Output.{approval, question}
use go_agent_wrapper.Turnoutput.Turn.{Signal, Tool, Turn, no_facts}
use go_agent_wrapper.Turnoutput.Signals.{raise_approval, open_signal}
use go_agent_wrapper.Turnoutput.Tools.{tool_index, add_tool}
use go_agent_wrapper.Turnoutput.Signals.Ending.{
  or_else, open_questions, open_approvals, open_signal_lem,
}
use go_agent_wrapper.Turnoutput.Signals.Refusals.{raise_approval-add_tool}

abbrev request : Signal
request = record {
  kind = approval;
  text = bytes "run rm";
  by_tool = false;
  tool_id = [];
  tool_call = false;
  at = 0;
  seq = 1;
}

abbrev asked : Signal
asked = record {
  kind = question;
  text = bytes "Which?";
  by_tool = true;
  tool_id = bytes "q";
  tool_call = true;
  at = 0;
  seq = 1;
}

abbrev ask_tool : Tool
ask_tool = record { id = bytes "q"; blocks_at = 0; seq = 1; question = true; facts = no_facts }

abbrev waiting : Turn
waiting = record {
  id = bytes "t";
  blocks = [];
  anon_open = false;
  usage_stop = [];
  nbytes = 0;
  seq = 2;
  tools = ask_tool ∷ [];
  early = [];
  signals = request ∷ asked ∷ [];
  pending = [];
}

-- At a turn with an open request and an open question.
open_signal_lem_example :
    open_signal waiting
    ≡ or_else (get_last? (open_questions waiting)) (get_last? (open_approvals waiting))
open_signal_lem_example = open_signal_lem waiting

-- At a refusal of a call that has not come yet.
raise_approval-add_tool_example :
    raise_approval (bytes "no") (bytes "w") (add_tool (bytes "w") false waiting)
    ≡ add_tool (bytes "w") false (raise_approval (bytes "no") (bytes "w") waiting)
raise_approval-add_tool_example =
    raise_approval-add_tool (bytes "no") (bytes "w") false waiting refl
      (unfold tool_index ◌==◌ in refl) (unfold lookup in refl) (omega arith)
