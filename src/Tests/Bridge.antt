-- ===== src/Tests/Bridge.antt =====
-- acp/ndjsonclient.go and acp/writeframe.go at concrete inputs.
use go_agent_wrapper.Shared.{
  Bytes, bytes, ◌≡◌, refl, true, false, some, none, inl, ◌⊎◌, List, [], ◌∷◌, ◌++◌, All, take,
  is_empty, arith, length,
}
use go_agent_wrapper.Shared.Int.{pos}
use go_agent_wrapper.Shared.Table.{lookup}
use go_agent_wrapper.Permission.Request.{cancelled, cancelled_permission}
use go_agent_wrapper.Permission.Coordinator.{
  Pending, refused_admission, begin_turn, close_admission, end_turn, find_turn, update_turn,
  cancel_entries, close_done, delete_turn,
}
use go_agent_wrapper.Permission.Coordinator as Permissions
use go_agent_wrapper.Permission.Answer.{selection, decide, register}
use go_agent_wrapper.Bridge.Rpc.{empty_rpc, allocates, registers, responds, integer, result}
use go_agent_wrapper.Bridge.Rpc as Rpc
use go_agent_wrapper.Bridge.Rpc.Answers.{request_life}
use go_agent_wrapper.Bridge.Rpc.Lives.{reply_of, pending_of, story, untold}
use go_agent_wrapper.Bridge.Frame.{
  Attempt, Wire, deadline_exceeded, frames, answers, written, open_wire, write_frame, lock_ctx,
  write, after_error,
}
use go_agent_wrapper.Bridge.Frame as Frame
use go_agent_wrapper.Bridge.Frame.Framing.{wire_has_frames, reaches}
use go_agent_wrapper.Bridge.Frame.Contract.{IsCut, delivered}
use go_agent_wrapper.Bridge.Frame.Glued.{cut_answer_is_glued}
use go_agent_wrapper.Bridge.Client.{Running, new, admit_prompt, emit, clear_turn}
use go_agent_wrapper.Bridge.Client.Run.{
  Action, establishes, prompts, advances, goes_well, run, step, advance_turn, step_turn, replace,
  advance, deliver_to,
}
use go_agent_wrapper.Bridge.Client.Run as Run
use go_agent_wrapper.Bridge.Client.Flight.{is_past}
use go_agent_wrapper.Bridge.Client.Ended.{IsMinted}
use go_agent_wrapper.Bridge.Client.Channel.{KeepsUp}
use go_agent_wrapper.Bridge.Client.Paired.{IsGiven, IsSeenWhole, host_events, turns_end}
use go_agent_wrapper.Bridge.Client.Permits.{idle_grants_nothing}

abbrev component : Bytes
component = bytes "claudeacp"

-- A prompt's request that is answered, and answered again.
abbrev one_call : List Rpc.Action
one_call =
    allocates
    ∷ registers 1 (bytes "session/prompt")
    ∷ responds (integer (pos 1)) (result (bytes "{}"))
    ∷ responds (integer (pos 1)) (result (bytes "[]"))
    ∷ []

one_call_test : lookup 1 (Rpc.run component one_call empty_rpc).replies ≡ some (result (bytes "{}"))
unfolding lookup Rpc.run Rpc.step Rpc.allocate Rpc.register Rpc.deliver_response
one_call_test = refl

-- At that request.
request_life_example :
    (lookup 1 (Rpc.run component one_call empty_rpc).replies
      ≡ reply_of (story component 1 one_call untold).life)
    × (lookup 1 (Rpc.run component one_call empty_rpc).pending
        ≡ pending_of (story component 1 one_call untold).life)
request_life_example = request_life component 1 one_call

abbrev whole_write : Attempt
whole_write = record {
  frame = bytes "ab";
  ended_before = false;
  never_ends = false;
  try_locked = true;
  acquired = false;
  ended_locked = false;
  has_deadline = true;
  deadline_set = true;
  fires = false;
  saw_done = false;
  accepted = 2;
  error = none;
  ended_after = false;
}

-- The context ends while the write is blocked after one byte.
abbrev cut_write : Attempt
cut_write = record whole_write {
  fires = true;
  accepted = 1;
  error = some deadline_exceeded;
  ended_after = true;
}

abbrev writes : List Frame.Action
writes = frames whole_write ∷ frames cut_write ∷ []

writes_test : Frame.run writes open_wire ≡ record { sent = bytes "aba"; closed = true }
unfolding Frame.run Frame.step write_frame lock_ctx write after_error
writes_test = refl

-- At a whole write and one that is cut short.
wire_has_frames_example :
    (rest : Bytes) × ((Frame.run writes open_wire).sent
      ≡ open_wire.sent ++ (delivered writes open_wire ++ rest))
    × ((rest ≡ []) ⊎ (IsCut rest writes × ((Frame.run writes open_wire).closed ≡ true)))
wire_has_frames_example = wire_has_frames writes open_wire (
    unfold Frame.step write_frame lock_ctx write in
    (
      record { within = omega arith; whole = λ _. refl; silent = λ c. cc },
      (record { within = omega arith; whole = λ e. cc; silent = λ c. cc }, tt),
    ))

-- At a refusal of which one byte was written.
cut_answer_is_glued_example :
    ((Frame.step (answers (bytes "no") 1 (some deadline_exceeded)) open_wire).closed ≡ false)
    × ((write_frame whole_write
          (Frame.step (answers (bytes "no") 1 (some deadline_exceeded)) open_wire)).0
        ≡ written)
    × ((Frame.run
          (answers (bytes "no") 1 (some deadline_exceeded) ∷ frames whole_write ∷ [])
          open_wire).sent
        ≡ open_wire.sent ++ (take 1 (bytes "no") ++ whole_write.frame))
cut_answer_is_glued_example =
    cut_answer_is_glued (bytes "no") 1 deadline_exceeded whole_write open_wire refl
      (unfold reaches lock_ctx in refl) refl refl

-- A turn from its prompt to its end.
abbrev one_turn : List Action
one_turn =
    establishes (bytes "s")
    ∷ prompts (bytes "t")
    ∷ advances 0 goes_well
    ∷ advances 0 goes_well
    ∷ advances 0 goes_well
    ∷ advances 0 goes_well
    ∷ Run.responds (integer (pos 1)) (result (bytes "{}"))
    ∷ advances 0 goes_well
    ∷ advances 0 goes_well
    ∷ advances 0 goes_well
    ∷ advances 0 goes_well
    ∷ advances 0 goes_well
    ∷ advances 0 goes_well
    ∷ []

one_turn_test :
    (is_empty (run component one_turn (new true)).current_turn ≡ true)
    × (is_empty (run component one_turn (new true)).running ≡ true)
unfolding run step new admit_prompt advance_turn step_turn replace advance deliver_to emit
    clear_turn Permissions.new Rpc.deliver_response lookup
one_turn_test = (refl, refl)

minted : All IsMinted one_turn
minted = (tt, (refl, (tt, (tt, (tt, (tt, (tt, (tt, (tt, (tt, (tt, (tt, (tt, tt)))))))))))))

host_events_test : length (host_events (run component one_turn (new true))) ≡ 2
unfolding run step new admit_prompt advance_turn step_turn replace advance deliver_to emit
    clear_turn Permissions.new Rpc.deliver_response lookup
host_events_test = refl

keeps_up : KeepsUp component one_turn (new true)
unfolding run step new admit_prompt advance_turn step_turn replace advance deliver_to emit
    clear_turn Permissions.new Rpc.deliver_response lookup
keeps_up = (
  refl,
  (
    refl,
    (refl, (refl, (refl, (refl, (refl, (refl, (refl, (refl, (refl, (refl, (refl, tt))))))))))),
  ),
)

-- At that turn.
turns_end_example :
    All IsGiven (run component one_turn (new true)).emitted
    × ((id : Bytes) → IsSeenWhole id (run component one_turn (new true)))
    × All
        (λ (r : Running).
          (is_past r.phase ≡ true) ⊎ (r.id ≡ (run component one_turn (new true)).current_turn))
        (run component one_turn (new true)).running
turns_end_example = turns_end component true one_turn minted keeps_up

abbrev entry : Pending
entry = record {
  number = 1;
  ctx_cancelled = false;
  canceled = false;
  committed = false;
  generation = 1;
}

-- At an entry of the turn that has ended.
idle_grants_nothing_example :
    ((decide entry
        (selection (bytes "allow"))
        []
        (run component one_turn (new true)).permissions).outcome
      ≡ cancelled)
    × ((register (refused_admission 1) (run component one_turn (new true)).permissions).0
        ≡ inl (cancelled_permission (bytes "turn not active")))
idle_grants_nothing_example =
    idle_grants_nothing component true one_turn entry (selection (bytes "allow")) []
      (refused_admission 1) minted one_turn_test.0
