-- ===== src/Bridge/Client/Channel.antt =====
-- acp/ndjsonclient.go: what the host gets of the events that a client emits, while it keeps up.
use go_agent_wrapper.Shared.{
  ℕ, ◌≡◌, refl, sym, ap, ◌∙◌, inl, inr, Bytes, ◌==◌, Bool, true, false, ◌&&◌, ◌||◌, Option, none,
  some, List, [], ◌∷◌, ◌++◌, All, leb, length, get_elem?, is_empty, Bool-cases, arith,
}
use go_agent_wrapper.Shared.Table.{lookup}
use go_agent_wrapper.Permission.Coordinator.{PermissionTurn, find_turn}
use go_agent_wrapper.Bridge.Rpc.{Reply, Rpc, Delivery, deliver_response}
use go_agent_wrapper.Bridge.Client.{
  Client, Running, Event, Fate, Phase, admitted, announced, reported, numbered, writing, unsent,
  waiting, finishing, ended, cleared, draining, sent, overflowed, refused, channel_size, emit,
  clear_turn, new, admit_prompt, cancel, start_closing, close_events,
}
use go_agent_wrapper.Bridge.Client.Run.{
  Action, Choice, goes_well, goes_wrong, awaited, released, begin_end, drained, is_over, advance,
  is_reported, step_turn, advance_found, advance_turn, is_free, receive, taken, accept_delivery,
  deliver_to, step, run, prompts, advances, cancels, establishes, sets_system_prompt, takes_gate,
  frees_gate, shuts, stops_lifetime, closes_transport, starts_closing, closes_events, receives,
  permits, calls, responds, emits,
}

-- The events that went into the channel, in order.
abbrev pub sent_events : List (Event × Fate) → List Event
sent_events [] = []
sent_events ((e, sent) ∷ rest) = sent_events rest ++ e ∷ []
sent_events ((e, overflowed) ∷ rest) = sent_events rest
sent_events ((e, refused) ∷ rest) = sent_events rest

abbrev is_lost : Fate → Bool
is_lost overflowed = true
is_lost sent = false
is_lost refused = false

abbrev pub IsRoomed : Event × Fate → Type 0
IsRoomed (e, f) = is_lost f ≡ false

-- What went into the channel is what the host took, and then what waits there; and none was lost.
abbrev pub IsDelivered : List (Event × Fate) → List Event → List Event → Type 0
IsDelivered emitted received channel =
    (sent_events emitted ≡ received ++ channel) × All IsRoomed emitted

abbrev pub Delivered : Client → Type 0
Delivered c = IsDelivered c.emitted c.received c.channel

-- Whenever a goroutine takes a step, the buffer of the Events channel has room.
abbrev pub KeepsUp : Bytes → List Action → Client → Type 0
KeepsUp component [] c = Unit {0}
KeepsUp component (a ∷ rest) c =
    (leb channel_size (length c.channel) ≡ false) × KeepsUp component rest (step component a c)

++-assoc : (xs ys zs : List Event) → (xs ++ ys) ++ zs ≡ xs ++ (ys ++ zs)
++-assoc [] ys zs = refl
++-assoc (x ∷ xs) ys zs = ap (λ l. x ∷ l) (++-assoc xs ys zs)

emit-Delivered :
    (e : Event) (c : Client)
    → leb channel_size (length c.channel) ≡ false
    → Delivered c
    → Delivered (emit e c)
unfolding emit
emit-Delivered e c room (is, all) = elim (Bool-cases c.events_closed) [
  | inl shut ↦ rw shut (is, (refl, all))
  | inr still_open ↦
      rw (still_open, room)
        (ap (λ l. l ++ e ∷ []) is ∙ ++-assoc c.received c.channel (e ∷ []), (refl, all))
]

receive-Delivered :
    (emitted : List (Event × Fate)) (received channel : List Event)
    → IsDelivered emitted received channel
    → IsDelivered emitted (received ++ taken channel) (receive channel)
receive-Delivered emitted received [] (is, all) = (is ∙ sym (++-assoc received [] []), all)
receive-Delivered emitted received (e ∷ rest) (is, all) =
    (is ∙ sym (++-assoc received (e ∷ []) rest), all)

clear_turn-Delivered : (id : Bytes) (c : Client) → Delivered c → Delivered (clear_turn id c)
unfolding clear_turn
clear_turn-Delivered id c h = elim (Bool-cases (c.current_turn == id)) [
  | inl e ↦ rw e h
  | inr e ↦ rw e h
]

module _ (c : Client) (room : leb channel_size (length c.channel) ≡ false) (h : Delivered c) where
  awaited-Delivered : (o : Option Reply) (n : ℕ) → Delivered (awaited o n c).1
  awaited-Delivered none n = h
  awaited-Delivered (some reply) n = h

  released-Delivered : (b : Bool) (n : ℕ) → Delivered (released b n c).1
  released-Delivered true n = h
  released-Delivered false n = h

  begin_end-Delivered :
      (o : Option PermissionTurn) (failed : Bool) → Delivered (begin_end o failed c).1
  begin_end-Delivered none failed = h
  begin_end-Delivered (some t) failed = h

  drained_Delivered : (b failed : Bool) (g : ℕ) → Delivered (drained b failed g c).1
  drained_Delivered true failed g = h
  drained_Delivered false failed g = h

  advance-Delivered :
      (choice : Choice) (id : Bytes) (phase : Phase) → Delivered (advance choice id phase c).1
  unfolding advance
  advance-Delivered choice id admitted = emit-Delivered _ c room h
  advance-Delivered choice id announced = h
  advance-Delivered choice id (numbered n) = h
  advance-Delivered goes_well id (writing n) = h
  advance-Delivered goes_wrong id (writing n) = h
  advance-Delivered choice id (unsent n) = h
  advance-Delivered goes_well id (waiting n) = awaited-Delivered (lookup n c.rpc.replies) n
  advance-Delivered goes_wrong id (waiting n) = released-Delivered c.lifetime_stopped n
  advance-Delivered choice id (finishing failed) =
      begin_end-Delivered (find_turn c.permissions.generation c.permissions.turns) failed
  advance-Delivered choice id (draining failed g) =
      drained_Delivered (is_over (find_turn g c.permissions.turns)) failed g
  advance-Delivered choice id (ended failed) = clear_turn-Delivered id c h
  advance-Delivered choice id (cleared failed) = emit-Delivered _ c room h
  advance-Delivered choice id reported = h

  found-Delivered :
      (i : ℕ) (choice : Choice) (o : Option Running) → Delivered (advance_found i choice o c)
  unfolding step_turn
  found-Delivered i choice none = h
  found-Delivered i choice (some r) = elim (Bool-cases (is_reported r.phase)) [
    | inl e ↦ rw e h
    | inr e ↦ rw e (advance-Delivered choice r.id r.phase)
  ]

  prompt_same :
      (id : Bytes)
      → ((admit_prompt id c).1.emitted ≡ c.emitted)
        × ((admit_prompt id c).1.received ≡ c.received)
        × ((admit_prompt id c).1.channel ≡ c.channel)
  unfolding admit_prompt
  prompt_same id = ground arith

  prompt-Delivered : (id : Bytes) → Delivered (admit_prompt id c).1
  prompt-Delivered id = let (x, y, z) = prompt_same id in rw (x, y, z) h

  cancel-Delivered : (delivered : Bool) → Delivered (cancel delivered c).1
  unfolding cancel
  cancel-Delivered delivered =
      elim (Bool-cases (is_empty c.session_id || is_empty c.current_turn)) [
        | inl e ↦ rw e h
        | inr e ↦ rw e h
      ]

  close-Delivered : Delivered (close_events c)
  unfolding close_events
  close-Delivered = elim (Bool-cases (c.events_closing && is_empty c.running)) [
    | inl e ↦ rw e h
    | inr e ↦ rw e h
  ]

  accept-Delivered : (d : Delivery × Rpc) → Delivered (accept_delivery d c)
  accept-Delivered (report, rpc) = elim (Bool-cases report.closes_admission) [
    | inl e ↦ rw e h
    | inr e ↦ rw e h
  ]

  step-Delivered : (component : Bytes) (a : Action) → Delivered (step component a c)
  unfolding step advance_turn start_closing deliver_to
  step-Delivered component (prompts id) = elim (Bool-cases (is_free c.gate)) [
    | inl e ↦ rw e (prompt-Delivered id)
    | inr e ↦ rw e h
  ]
  step-Delivered component (advances i choice) = found-Delivered i choice (get_elem? c.running i)
  step-Delivered component (cancels delivered) = elim (Bool-cases (is_free c.gate)) [
    | inl e ↦ rw e (cancel-Delivered delivered)
    | inr e ↦ rw e h
  ]
  step-Delivered component (establishes id) = h
  step-Delivered component (sets_system_prompt prompt) = h
  step-Delivered component takes_gate = h
  step-Delivered component frees_gate = h
  step-Delivered component shuts = h
  step-Delivered component stops_lifetime = h
  step-Delivered component closes_transport = h
  step-Delivered component starts_closing = h
  step-Delivered component closes_events = close-Delivered
  step-Delivered component receives = receive-Delivered c.emitted c.received c.channel h
  step-Delivered component (permits a) = h
  step-Delivered component (calls a) = h
  step-Delivered component (responds id reply) =
      accept-Delivered (deliver_response component id reply c.rpc)
  step-Delivered component (emits kind id) = emit-Delivered _ c room h

pub run-Delivered :
    (component : Bytes) (actions : List Action) (c : Client)
    → KeepsUp component actions c
    → Delivered c
    → Delivered (run component actions c)
unfolding run
run-Delivered component [] c up h = h
run-Delivered component (a ∷ rest) c up h =
    run-Delivered component rest (step component a c) up.1 (step-Delivered c up.0 h component a)

pub new-Delivered : (has_responder : Bool) → Delivered (new has_responder)
unfolding new
new-Delivered has_responder = (refl, tt)
