-- ===== src/Bridge/Client.antt =====
-- acp/ndjsonclient.go: NDJSONBridgeClient, its state and what its methods do in their locked
-- sections. The events carry their kind and their turn; payloads are not modelled. turnWG counts the
-- turns of `running`. A turn's goroutine is its phase.
pub mod Run
pub mod Flight
pub mod View
pub mod Events
pub mod Steps
pub mod Channel
pub mod Ended
pub mod Paired
pub mod Calm
pub mod Settled
pub mod Permits
pub mod Drain
pub mod Stops
pub mod Endings
pub mod Nearer
pub mod Shutdown
use go_agent_wrapper.Shared.{
  ℕ, Bytes, ◌==◌, Bool, true, false, not, ◌&&◌, ◌||◌, Option, none, some, List, [], ◌∷◌, ◌++◌, leb,
  length, is_empty, if◌then◌else◌,
}
use go_agent_wrapper.Permission.Coordinator.{Coordinator, begin_turn, cancel_turn}
use go_agent_wrapper.Permission.Coordinator as Permissions
use go_agent_wrapper.Bridge.Rpc.{Rpc, empty_rpc}

-- The kinds of event that do not begin or end a turn: those of a launch, of the process, of permission
-- requests, and what an adapter makes of a notification.
pub data OtherKind : Type 0 where
  session_ready session_lost process_started process_exited : OtherKind
  permission_requested permission_resolved notified : OtherKind

pub data Kind : Type 0 where
  turn_started turn_completed turn_failed : Kind
  other : OtherKind → Kind

pub record Event : Type 0 where
  pub kind : Kind
  pub turn_id : Bytes

-- What became of a call of emit.
pub data Fate : Type 0 where
  sent overflowed refused : Fate

-- Where the goroutine of a turn is. Prompt: `admitted`, before the start is emitted; `announced`;
-- `numbered`, with its request's id; `writing`, registered; `unsent`, the write failed. The goroutine
-- that awaits the response: `waiting`. finishTurn, of a call that failed or not: `finishing`, before
-- EndTurn; `draining`, while EndTurn waits for a generation's dispatches; `ended`; `cleared`, with
-- currentTurnID reset; `reported`, before turnWG.Done.
pub data Phase : Type 0 where
  admitted announced reported : Phase
  numbered writing unsent waiting : ℕ → Phase
  finishing ended cleared : Bool → Phase
  draining : Bool → ℕ → Phase

-- `gated`: the goroutine is Prompt's own, which holds promptCloseMu.
pub record Running : Type 0 where
  pub id : Bytes
  pub gated : Bool
  pub phase : Phase

-- Who holds promptCloseMu: nobody, a Prompt, or Close or the response to a permission request.
pub data Gate : Type 0 where
  free held_by_prompt held_by_other : Gate

-- `channel` is the buffer of Events, and `received` what the host took from it, each in order.
-- `emitted` has every call of emit, the last one first.
pub record Client : Type 0 where
  pub closed : Bool
  pub session_id : Bytes
  pub system_prompt : Bytes
  pub events_closing : Bool
  pub events_closed : Bool
  pub gate : Gate
  pub current_turn : Bytes
  pub lifetime_stopped : Bool
  pub transport_closed : Bool
  pub rpc : Rpc
  pub permissions : Coordinator
  pub running : List Running
  pub channel : List Event
  pub received : List Event
  pub emitted : List (Event × Fate)

-- NewNDJSONBridgeClient, with the coordinator that Launch makes.
unfoldable pub new : Bool → Client
unfolding Permissions.new
new has_responder = record {
  closed = false;
  session_id = [];
  system_prompt = [];
  events_closing = false;
  events_closed = false;
  gate = free;
  current_turn = [];
  lifetime_stopped = false;
  transport_closed = false;
  rpc = empty_rpc;
  permissions = Permissions.new has_responder;
  running = [];
  channel = [];
  received = [];
  emitted = [];
}

abbrev pub channel_size : ℕ
channel_size = 64

unfoldable pub emit : Event → Client → Client
emit event c =
    if c.events_closed
    then record c { emitted = (event, refused) ∷ c.emitted }
    else if leb channel_size (length c.channel)
    then record c { emitted = (event, overflowed) ∷ c.emitted }
    else record c { channel = c.channel ++ event ∷ []; emitted = (event, sent) ∷ c.emitted }

pub data Verdict : Type 0 where
  turn_in_flight client_closed transport_ended no_session turn_admitted : Verdict

abbrev pub opened_turn : Bytes → Running
opened_turn id = record { id = id; gated = true; phase = admitted }

-- Prompt up to the end of its locked section, once it holds promptCloseMu; `id` is the new turn id.
unfoldable pub admit_prompt : Bytes → Client → Verdict × Client
unfolding begin_turn
admit_prompt id c =
    if not (is_empty c.current_turn)
    then (turn_in_flight, c)
    else if c.closed
    then (client_closed, c)
    else if c.events_closing
    then (transport_ended, c)
    else if is_empty c.session_id
    then (no_session, c)
    else (
      turn_admitted,
      record c {
        system_prompt = [];
        current_turn = id;
        permissions = begin_turn c.permissions;
        gate = held_by_prompt;
        running = c.running ++ opened_turn id ∷ [];
      },
    )

-- Cancel, once it holds promptCloseMu, with whether its notification was delivered. It returns
-- whether it did something.
unfoldable pub cancel : Bool → Client → Bool × Client
unfolding cancel_turn
cancel delivered c = if is_empty c.session_id || is_empty c.current_turn then (false, c) else (
  true,
  record c {
    permissions = cancel_turn c.permissions;
    transport_closed = not delivered || c.transport_closed;
  },
)

-- The reset of currentTurnID in finishTurn.
unfoldable pub clear_turn : Bytes → Client → Client
unfolding ◌==◌
clear_turn id c = if c.current_turn == id then record c { current_turn = [] } else c

-- closeEvents up to its wait, and after it.
unfoldable pub start_closing : Client → Client
start_closing c = record c { events_closing = true }

unfoldable pub close_events : Client → Client
close_events c =
    if c.events_closing && is_empty c.running then record c { events_closed = true } else c
