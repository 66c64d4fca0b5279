-- ===== src/Tests/Shutdowns.antt =====
-- acp/ndjsonclient.go: the end of a client with a prompt under way.
use go_agent_wrapper.Shared.{Bytes, bytes, ◌≡◌, refl, true, List, [], ◌∷◌, length, is_empty}
use go_agent_wrapper.Shared.Table.{lookup}
use go_agent_wrapper.Permission.Coordinator.{
  begin_turn, close_admission, end_turn, find_turn, update_turn, delete_turn, close_done,
  cancel_entries,
}
use go_agent_wrapper.Permission.Coordinator as Permissions
use go_agent_wrapper.Bridge.Client.{Client, new, admit_prompt, emit, clear_turn, start_closing}
use go_agent_wrapper.Bridge.Client.Run.{
  Action, establishes, prompts, advances, goes_well, goes_wrong, stops_lifetime, starts_closing,
  run, step, advance_turn, step_turn, replace, advance,
}
use go_agent_wrapper.Bridge.Client.Drain.{can_step}
use go_agent_wrapper.Bridge.Client.Nearer.{moves}

abbrev component : Bytes
component = bytes "claudeacp"

-- A prompt that waits for its response when the client is closed.
abbrev cut_off : List Action
cut_off =
    establishes (bytes "s")
    ∷ prompts (bytes "t")
    ∷ advances 0 goes_well
    ∷ advances 0 goes_well
    ∷ advances 0 goes_well
    ∷ advances 0 goes_well
    ∷ stops_lifetime
    ∷ starts_closing
    ∷ []

abbrev cut_client : Client
cut_client = run component cut_off (new true)

-- Steps of its turn, with a prompt in between that is refused.
abbrev schedule : List Action
schedule =
    advances 0 goes_well
    ∷ advances 0 goes_wrong
    ∷ prompts (bytes "u")
    ∷ advances 0 goes_wrong
    ∷ advances 0 goes_wrong
    ∷ advances 0 goes_wrong
    ∷ advances 0 goes_wrong
    ∷ advances 0 goes_wrong
    ∷ []

schedule_test :
    (length cut_client.running ≡ 1)
    × (is_empty (run component schedule cut_client).running ≡ true)
    × (moves component schedule cut_client ≡ 6)
unfolding run step moves can_step new admit_prompt advance_turn step_turn replace advance emit
    begin_turn start_closing Permissions.new close_admission end_turn find_turn update_turn
    delete_turn close_done cancel_entries clear_turn lookup
schedule_test = (refl, refl, refl)
