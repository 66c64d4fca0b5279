-- ===== src/Tests/Permissions.antt =====
-- acp/permission.go: a request, its turn and its end at concrete inputs.
use go_agent_wrapper.Shared.{
  Bytes, bytes, ◌==◌, is_empty, ◌≡◌, refl, true, false, some, [], ◌∷◌, inl,
}
use go_agent_wrapper.Permission.Request.{
  PermissionOption, ToolCall, PermissionRequest, Wire, cancelled, selected, cancelled_permission,
  parse_request,
}
use go_agent_wrapper.Permission.Coordinator.{
  Pending, Coordinator, new, refused_admission, begin_turn,
}
use go_agent_wrapper.Permission.Answer.{selection, live, register, decide}
use go_agent_wrapper.Permission.Answer.Chosen.{IsOnly, decide-selected}
use go_agent_wrapper.Permission.Run.{admits, begins_turn, cancels_turn, step, run}
use go_agent_wrapper.Permission.Run.Dead.{by_cancel, ended_turn_cancels}
use go_agent_wrapper.Permission.Run.Bounds.{IsBounded, run-IsBounded}

abbrev allow : PermissionOption
allow = record { option_id = bytes "a"; name = bytes "Allow"; kind = bytes "allow_once" }

abbrev reject : PermissionOption
reject = record { option_id = bytes "r"; name = bytes "Reject"; kind = bytes "reject_once" }

abbrev call : ToolCall
call = record { tool_call_id = bytes "c"; name = bytes "Bash"; title = []; kind = []; status = [] }

abbrev wire : Wire
wire = record {
  session_id = bytes "s";
  tool_call = some call;
  options = some (allow ∷ reject ∷ []);
}

abbrev request : PermissionRequest
request = record { session_id = bytes "s"; tool_call = call; options = allow ∷ reject ∷ [] }

-- A coordinator in its first turn.
abbrev in_turn : Coordinator
in_turn = begin_turn (new true)

abbrev entry : Pending
entry = record {
  number = 1;
  ctx_cancelled = false;
  canceled = false;
  committed = false;
  generation = 1;
}

accepted : parse_request (some wire) ≡ some request
unfolding parse_request ◌==◌
accepted = refl

chosen : (decide entry (selection (bytes "a")) request.options in_turn).outcome ≡ selected
unfolding decide begin_turn new ◌==◌
chosen = refl

-- At a request that the responder allows in the first turn.
decide-selected_example :
    (k : Bytes) × (selection (bytes "a") ≡ selection k)
    × (is_empty k ≡ false)
    × ((decide entry (selection (bytes "a")) request.options in_turn).option.option_id ≡ k)
    × IsOnly (decide entry (selection (bytes "a")) request.options in_turn).option request.options
    × (entry.canceled ≡ false)
    × (live entry.generation in_turn ≡ true)
decide-selected_example =
    decide-selected wire request entry (selection (bytes "a")) in_turn accepted chosen

-- At the cancellation of the first turn, after which another turn begins.
ended_turn_cancels_example :
    ((decide entry
        (selection (bytes "a"))
        request.options
        (run (begins_turn ∷ []) (step cancels_turn in_turn))).outcome
      ≡ cancelled)
    × ((register (refused_admission 1) (run (begins_turn ∷ []) (step cancels_turn in_turn))).0
        ≡ inl (cancelled_permission (bytes "turn not active")))
ended_turn_cancels_example =
    ended_turn_cancels by_cancel in_turn (begins_turn ∷ []) entry (selection (bytes "a"))
      request.options (refused_admission 1) (unfold begin_turn new in refl)
      (unfold begin_turn new in refl)

-- At a turn with one dispatch.
run-IsBounded_example : IsBounded (run (begins_turn ∷ admits true ∷ []) (new true))
run-IsBounded_example = run-IsBounded (begins_turn ∷ admits true ∷ []) true
