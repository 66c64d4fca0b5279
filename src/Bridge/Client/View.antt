-- ===== src/Bridge/Client/View.antt =====
-- acp/ndjsonclient.go: what the steps of a client do to its turns, its Events channel's state and
-- the events that it emitted.
use go_agent_wrapper.Shared.{
  ℕ, ◌≡◌, refl, sym, ap, ◌∙◌, inl, inr, Bytes, Bool, true, false, Option, none, some, List, ◌∷◌,
  leb, length, Bool-cases, arith,
}
use go_agent_wrapper.Shared.Table.{lookup}
use go_agent_wrapper.Bridge.Rpc.{Reply}
use go_agent_wrapper.Permission.Coordinator.{PermissionTurn, find_turn}
use go_agent_wrapper.Bridge.Client.{
  Client, Running, Phase, Event, Fate, turn_started, sent, overflowed, refused, admitted, announced,
  reported, numbered, writing, unsent, waiting, finishing, ended, cleared, draining, emit,
  clear_turn, channel_size,
}
use go_agent_wrapper.Bridge.Client.Run.{
  Choice, goes_well, goes_wrong, terminal, awaited, released, begin_end, drained, is_over, advance,
}
use go_agent_wrapper.Bridge.Client.Flight.{is_past}

pub record View : Type 0 where
  pub running : List Running
  pub current : Bytes
  pub closed : Bool
  pub closing : Bool
  pub emitted : List (Event × Fate)

abbrev pub view : Client → View
view c = record {
  running = c.running;
  current = c.current_turn;
  closed = c.events_closed;
  closing = c.events_closing;
  emitted = c.emitted;
}

-- A turn whose start was emitted and whose end was not.
abbrev pub is_open : Phase → Bool
is_open admitted = false
is_open reported = false
is_open announced = true
is_open (numbered n) = true
is_open (writing n) = true
is_open (unsent n) = true
is_open (waiting n) = true
is_open (finishing failed) = true
is_open (ended failed) = true
is_open (cleared failed) = true
is_open (draining failed g) = true

abbrev pub is_refused : Fate → Bool
is_refused sent = false
is_refused overflowed = false
is_refused refused = true

pub record Emission (event : Event) (c : Client) (d : View) : Type 0 where
  pub fate : Fate
  pub seen : d ≡ record (view c) { emitted = (event, fate) ∷ c.emitted }
  pub refuses : is_refused fate ≡ c.events_closed

pub emit-view : (event : Event) (c : Client) → Emission event c (view (emit event c))
unfolding emit
emit-view event c = elim (Bool-cases c.events_closed) [
  | inl shut ↦ record { fate = refused; seen = ground (arith, shut); refuses = sym shut }
  | inr not_shut ↦ elim (Bool-cases (leb channel_size (length c.channel))) [
    | inl full ↦ record {
      fate = overflowed;
      seen = ground (arith, not_shut, full);
      refuses = sym not_shut;
    }
    | inr room ↦ record {
      fate = sent;
      seen = ground (arith, not_shut, room);
      refuses = sym not_shut;
    }
  ]
]

-- What a step of a turn does.
pub data Moved (id : Bytes) (phase : Phase) (c : Client) : Phase → Client → Type 0 where
  quiet :
      {next : Phase} {d : Client}
      → is_past next ≡ is_past phase
      → is_open next ≡ is_open phase
      → view d ≡ view c
      → Moved id phase c next d
  starts :
      {next : Phase} {d : Client}
      → is_past next ≡ is_past phase
      → is_open phase ≡ false
      → is_open next ≡ true
      → Emission (record { kind = turn_started; turn_id = id }) c (view d)
      → Moved id phase c next d
  clears :
      {next : Phase} {d : Client}
      → is_past phase ≡ false
      → is_past next ≡ true
      → is_open phase ≡ is_open next
      → view d ≡ view (clear_turn id c)
      → Moved id phase c next d
  finishes :
      {next : Phase} {d : Client} (failed : Bool)
      → is_past next ≡ is_past phase
      → is_open phase ≡ true
      → is_open next ≡ false
      → Emission (terminal failed id) c (view d)
      → Moved id phase c next d

module _ (id : Bytes) (c : Client) where
  awaited_view :
      (o : Option Reply) (n : ℕ) → Moved id (waiting n) c (awaited o n c).0 (awaited o n c).1
  awaited_view none n = quiet refl refl refl
  awaited_view (some reply) n = quiet refl refl refl

  released_view : (b : Bool) (n : ℕ) → Moved id (waiting n) c (released b n c).0 (released b n c).1
  released_view true n = quiet refl refl refl
  released_view false n = quiet refl refl refl

  begin_end_view :
      (o : Option PermissionTurn) (failed : Bool)
      → Moved id (finishing failed) c (begin_end o failed c).0 (begin_end o failed c).1
  begin_end_view none failed = quiet refl refl refl
  begin_end_view (some t) failed = quiet refl refl refl

  drained_view :
      (b failed : Bool) (g : ℕ)
      → Moved id (draining failed g) c (drained b failed g c).0 (drained b failed g c).1
  drained_view true failed g = quiet refl refl refl
  drained_view false failed g = quiet refl refl refl

  -- Each step of a turn is one of these.
  pub advance_moves :
      (choice : Choice) (phase : Phase)
      → Moved id phase c (advance choice id phase c).0 (advance choice id phase c).1
  unfolding advance
  advance_moves choice admitted = starts refl refl refl (emit-view _ c)
  advance_moves choice announced = quiet refl refl refl
  advance_moves choice (numbered n) = quiet refl refl refl
  advance_moves goes_well (writing n) = quiet refl refl refl
  advance_moves goes_wrong (writing n) = quiet refl refl refl
  advance_moves choice (unsent n) = quiet refl refl refl
  advance_moves goes_well (waiting n) = awaited_view (lookup n c.rpc.replies) n
  advance_moves goes_wrong (waiting n) = released_view c.lifetime_stopped n
  advance_moves choice (finishing failed) =
      begin_end_view (find_turn c.permissions.generation c.permissions.turns) failed
  advance_moves choice (draining failed g) =
      drained_view (is_over (find_turn g c.permissions.turns)) failed g
  advance_moves choice (ended failed) = clears refl refl refl refl
  advance_moves choice (cleared failed) = finishes failed refl refl refl (emit-view _ c)
  advance_moves choice reported = quiet refl refl refl

clear_running : (id : Bytes) (c : Client) → (clear_turn id c).running ≡ c.running
unfolding clear_turn
clear_running id c = ground arith

-- No step of a turn touches the list of turns itself.
pub moved_running :
    {id : Bytes} {phase : Phase} {c : Client} {next : Phase} {d : Client}
    → Moved id phase c next d
    → d.running ≡ c.running
moved_running (quiet past opened seen) = ap (λ (v : View). v.running) seen
moved_running (starts past before after e) = ap (λ (v : View). v.running) e.seen
moved_running {id = id} {c = c} (clears before after opened seen) =
    ap (λ (v : View). v.running) seen ∙ clear_running id c
moved_running (finishes failed past before after e) = ap (λ (v : View). v.running) e.seen
