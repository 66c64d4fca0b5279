-- ===== src/Bridge/Client/Run.antt =====
-- acp/ndjsonclient.go: what the goroutines of a client do, as sequences of steps: each method and
-- each turn as its critical sections, in every interleaving.
use go_agent_wrapper.Shared.{
  ℕ, zero, suc, Bytes, bytes, Bool, true, false, not, ◌&&◌, Option, none, some, List, [], ◌∷◌, ◌++◌,
  get_elem?, if◌then◌else◌,
}
use go_agent_wrapper.Shared.Table.{lookup}
use go_agent_wrapper.Permission.Coordinator.{
  Coordinator, PermissionTurn, find_turn, close_admission, end_turn,
}
use go_agent_wrapper.Permission.Run as Permissions_run
use go_agent_wrapper.Bridge.Rpc.{
  Rpc, Delivery, Reply, result, failure, RawId, allocate, register, drop_pending, deliver_response,
}
use go_agent_wrapper.Bridge.Rpc as Rpc_table
use go_agent_wrapper.Bridge.Client.{
  Client, Running, Gate, free, held_by_prompt, held_by_other, Phase, OtherKind, other, Event,
  turn_started, turn_completed, turn_failed, admitted, announced, reported, numbered, writing,
  unsent, waiting, finishing, ended, cleared, draining, emit, admit_prompt, cancel, clear_turn,
  start_closing, close_events,
}

-- What the environment decides: whether a write succeeds, and whether a wait ends with the response
-- or with the end of the client's lifetime.
pub data Choice : Type 0 where
  goes_well goes_wrong : Choice

abbrev pub terminal : Bool → Bytes → Event
terminal true id = record { kind = turn_failed; turn_id = id }
terminal false id = record { kind = turn_completed; turn_id = id }

abbrev pub is_failure : Reply → Bool
is_failure (result raw) = false
is_failure (failure e) = true

-- awaitCall: the response, if there is one, or the end of the lifetime.
abbrev pub awaited : Option Reply → ℕ → Client → Phase × Client
awaited none n c = (waiting n, c)
awaited (some reply) n c = (finishing (is_failure reply), c)

abbrev pub released : Bool → ℕ → Client → Phase × Client
released true n c = (finishing true, record c { rpc = drop_pending n c.rpc })
released false n c = (waiting n, c)

-- EndTurn up to its wait, and after it.
abbrev pub begin_end : Option PermissionTurn → Bool → Client → Phase × Client
begin_end none failed c = (ended failed, c)
begin_end (some t) failed c =
    (draining failed t.generation, record c { permissions = close_admission c.permissions })

-- Whether EndTurn's receive from the turn's done channel goes on. Only an EndTurn for which it did
-- deletes the turn.
abbrev pub is_over : Option PermissionTurn → Bool
is_over none = true
is_over (some t) = t.done_closed

abbrev pub drained : Bool → Bool → ℕ → Client → Phase × Client
drained true failed g c = (ended failed, record c { permissions = end_turn g c.permissions })
drained false failed g c = (draining failed g, c)

-- The next step of a turn, before the end.
unfoldable pub advance : Choice → Bytes → Phase → Client → Phase × Client
unfolding lookup drop_pending find_turn close_admission end_turn allocate register emit clear_turn
advance choice id admitted c = (announced, emit (record { kind = turn_started; turn_id = id }) c)
advance choice id announced c = (numbered (suc c.rpc.next_id), record c { rpc = allocate c.rpc })
advance choice id (numbered n) c =
    (writing n, record c { rpc = register n (bytes "session/prompt") c.rpc })
advance goes_well id (writing n) c = (waiting n, record c { gate = free })
advance goes_wrong id (writing n) c = (unsent n, c)
advance choice id (unsent n) c = (finishing true, record c { rpc = drop_pending n c.rpc })
advance goes_well id (waiting n) c = awaited (lookup n c.rpc.replies) n c
advance goes_wrong id (waiting n) c = released c.lifetime_stopped n c
advance choice id (finishing failed) c =
    begin_end (find_turn c.permissions.generation c.permissions.turns) failed c
advance choice id (draining failed g) c =
    drained (is_over (find_turn g c.permissions.turns)) failed g c
advance choice id (ended failed) c = (cleared failed, clear_turn id c)
advance choice id (cleared failed) c = (reported, emit (terminal failed id) c)
advance choice id reported c = (reported, c)

abbrev pub is_waiting : Phase → Bool
is_waiting (waiting n) = true
is_waiting admitted = false
is_waiting announced = false
is_waiting reported = false
is_waiting (numbered n) = false
is_waiting (writing n) = false
is_waiting (unsent n) = false
is_waiting (finishing failed) = false
is_waiting (ended failed) = false
is_waiting (cleared failed) = false
is_waiting (draining failed g) = false

abbrev pub is_reported : Phase → Bool
is_reported reported = true
is_reported (waiting n) = false
is_reported admitted = false
is_reported announced = false
is_reported (numbered n) = false
is_reported (writing n) = false
is_reported (unsent n) = false
is_reported (finishing failed) = false
is_reported (ended failed) = false
is_reported (cleared failed) = false
is_reported (draining failed g) = false

-- The step of one turn, which may end it: turnWG.Done, and for Prompt's own goroutine the release of
-- promptCloseMu. A goroutine that awaits the response is not Prompt's.
unfoldable pub step_turn : Choice → Running → Client → Option Running × Client
unfolding advance
step_turn choice r c =
    if is_reported r.phase
    then (none, record c { gate = if r.gated then free else c.gate })
    else let (next, d) = advance choice r.id r.phase c in
      (some (record r { gated = r.gated && not (is_waiting next); phase = next }), d)

-- The list of turns where the one at a position is now `r`, or gone.
unfoldable pub replace : ℕ → Option Running → List Running → List Running
replace i r [] = []
replace zero none (old ∷ rest) = rest
replace zero (some new) (old ∷ rest) = new ∷ rest
replace (suc i) r (old ∷ rest) = old ∷ replace i r rest

abbrev pub put_turn : ℕ → Option Running × Client → Client
put_turn i (r, c) = record c { running = replace i r c.running }

abbrev pub advance_found : ℕ → Choice → Option Running → Client → Client
advance_found i choice none c = c
advance_found i choice (some r) c = put_turn i (step_turn choice r c)

unfoldable pub advance_turn : ℕ → Choice → Client → Client
unfolding replace
advance_turn i choice c = advance_found i choice (get_elem? c.running i) c

abbrev pub accept_delivery : Delivery × Rpc → Client → Client
accept_delivery (report, rpc) c =
    if report.closes_admission
    then record c { rpc = rpc; permissions = close_admission c.permissions }
    else record c { rpc = rpc }

-- The reader's deliverResponse; the answer to a prompt closes the admission of its turn.
unfoldable pub deliver_to : Bytes → RawId → Reply → Client → Client
unfolding deliver_response close_admission
deliver_to component id reply c = accept_delivery (deliver_response component id reply c.rpc) c

-- What a goroutine does next. `prompts` and `cancels` wait for promptCloseMu. `permits` is what the
-- permission coordinator does for itself; only Prompt begins a turn of it. `calls` is what other
-- callers do to the table of requests.
pub data Action : Type 0 where
  prompts : Bytes → Action
  advances : ℕ → Choice → Action
  cancels : Bool → Action
  establishes sets_system_prompt : Bytes → Action
  takes_gate frees_gate shuts stops_lifetime closes_transport starts_closing closes_events
        receives :
      Action
  permits : Permissions_run.Action → Action
  calls : Rpc_table.Action → Action
  responds : RawId → Reply → Action
  emits : OtherKind → Bytes → Action

abbrev pub permit : Permissions_run.Action → Coordinator → Coordinator
permit Permissions_run.begins_turn p = p
permit a p = Permissions_run.step a p

abbrev pub is_free : Gate → Bool
is_free free = true
is_free held_by_prompt = false
is_free held_by_other = false

-- Close, or a permission response, takes the gate where it is free, and frees it.
abbrev pub take_gate : Gate → Gate
take_gate free = held_by_other
take_gate held_by_prompt = held_by_prompt
take_gate held_by_other = held_by_other

abbrev pub free_gate : Gate → Gate
free_gate held_by_other = free
free_gate free = free
free_gate held_by_prompt = held_by_prompt

-- A receive from the Events channel: what it takes, and what it leaves.
abbrev pub taken : List Event → List Event
taken [] = []
taken (event ∷ rest) = event ∷ []

abbrev pub receive : List Event → List Event
receive [] = []
receive (event ∷ rest) = rest

unfoldable pub step : Bytes → Action → Client → Client
unfolding admit_prompt advance_turn cancel start_closing close_events emit deliver_response
    close_admission
step component (prompts id) c = if is_free c.gate then (admit_prompt id c).1 else c
step component (advances i choice) c = advance_turn i choice c
step component (cancels delivered) c = if is_free c.gate then (cancel delivered c).1 else c
step component (establishes id) c = record c { session_id = id }
step component (sets_system_prompt prompt) c = record c { system_prompt = prompt }
step component takes_gate c = record c { gate = take_gate c.gate }
step component frees_gate c = record c { gate = free_gate c.gate }
step component shuts c = record c { closed = true }
step component stops_lifetime c = record c { lifetime_stopped = true }
step component closes_transport c = record c { transport_closed = true }
step component starts_closing c = start_closing c
step component closes_events c = close_events c
step component receives c = record c {
  channel = receive c.channel;
  received = c.received ++ taken c.channel;
}
step component (permits a) c = record c { permissions = permit a c.permissions }
step component (calls a) c = record c { rpc = Rpc_table.step component a c.rpc }
step component (responds id reply) c = deliver_to component id reply c
step component (emits kind id) c = emit (record { kind = other kind; turn_id = id }) c

unfoldable pub run : Bytes → List Action → Client → Client
run component [] c = c
run component (a ∷ rest) c = run component rest (step component a c)
