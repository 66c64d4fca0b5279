-- ===== src/Bridge/Client/Nearer.antt =====
-- acp/ndjsonclient.go: what each step leaves of the turns of a client that is closing.
use go_agent_wrapper.Shared.{
  ℕ, ◌+◌, ◌≤◌, ◌≡◌, refl, ◌∙◌, inl, inr, Bytes, Bool, true, false, ◌&&◌, ◌||◌, Option, none, some,
  List, [], ◌∷◌, Bool-cases, arith, get_elem?, is_empty,
}
use go_agent_wrapper.Permission.Coordinator.{PermissionTurn}
use go_agent_wrapper.Bridge.Rpc.{Reply, Rpc, Delivery, deliver_response}
use go_agent_wrapper.Bridge.Client.{
  Client, Running, Event, Phase, admitted, announced, reported, numbered, writing, unsent, waiting,
  finishing, ended, cleared, draining, emit, admit_prompt, cancel, clear_turn, start_closing,
  close_events,
}
use go_agent_wrapper.Bridge.Client.Run.{
  Action, Choice, goes_well, goes_wrong, awaited, released, begin_end, drained, advance,
  is_reported, step_turn, advance_found, advance_turn, is_free, accept_delivery, deliver_to, step,
  run, prompts, advances, cancels, establishes, sets_system_prompt, takes_gate, frees_gate, shuts,
  stops_lifetime, closes_transport, starts_closing, closes_events, receives, permits, calls,
  responds, emits,
}
use go_agent_wrapper.Bridge.Client.Drain.{moves_found, found_left, total_left}

-- closeEvents has started, and the client's lifetime has ended.
pub record IsClosing (c : Client) : Type 0 where
  pub closing : c.events_closing ≡ true
  pub stopped : c.lifetime_stopped ≡ true

-- How many steps of turns in a schedule are not blocked where they are tried.
abbrev pub moves_of : Action → Client → ℕ
moves_of (advances i choice) c = moves_found choice (get_elem? c.running i) c
moves_of _ c = 0

unfoldable pub moves : Bytes → List Action → Client → ℕ
moves component [] c = 0
moves component (a ∷ rest) c = moves_of a c + moves component rest (step component a c)

-- What a step leaves of a closing client.
pub record Nearer (c d : Client) (moved : ℕ) : Type 0 where
  pub closing : IsClosing d
  pub less : total_left d.running + moved ≤ total_left c.running

module _ (c : Client) (h : IsClosing c) where
  same_turns : (d : Client) → IsClosing d → d.running ≡ c.running → Nearer c d 0
  same_turns d k same = record { closing = k; less = rw same (omega arith) }

  stays : Nearer c c 0
  stays = same_turns c h refl

  emit-IsClosing : (e : Event) → IsClosing (emit e c)
  unfolding emit
  emit-IsClosing e = record {
    closing = ground (arith, h.closing);
    stopped = ground (arith, h.stopped);
  }

  emit_running : (e : Event) → (emit e c).running ≡ c.running
  unfolding emit
  emit_running e = ground arith

  clear_turn-IsClosing : (id : Bytes) → IsClosing (clear_turn id c)
  unfolding clear_turn
  clear_turn-IsClosing id = record {
    closing = ground (arith, h.closing);
    stopped = ground (arith, h.stopped);
  }

  awaited-IsClosing : (o : Option Reply) (n : ℕ) → IsClosing (awaited o n c).1
  awaited-IsClosing none n = h
  awaited-IsClosing (some reply) n = h

  kept :
      (d : Client)
      → d.events_closing ≡ c.events_closing
      → d.lifetime_stopped ≡ c.lifetime_stopped
      → IsClosing d
  kept d x y = record { closing = x ∙ h.closing; stopped = y ∙ h.stopped }

  released-IsClosing : (b : Bool) (n : ℕ) → IsClosing (released b n c).1
  released-IsClosing true n = kept _ refl refl
  released-IsClosing false n = h

  begin_end-IsClosing :
      (o : Option PermissionTurn) (failed : Bool) → IsClosing (begin_end o failed c).1
  begin_end-IsClosing none failed = h
  begin_end-IsClosing (some t) failed = kept _ refl refl

  drained-IsClosing : (b failed : Bool) (g : ℕ) → IsClosing (drained b failed g c).1
  drained-IsClosing true failed g = kept _ refl refl
  drained-IsClosing false failed g = h

  advance-IsClosing :
      (choice : Choice) (id : Bytes) (phase : Phase) → IsClosing (advance choice id phase c).1
  unfolding advance
  advance-IsClosing choice id admitted = emit-IsClosing _
  advance-IsClosing choice id announced = kept _ refl refl
  advance-IsClosing choice id (numbered n) = kept _ refl refl
  advance-IsClosing goes_well id (writing n) = kept _ refl refl
  advance-IsClosing goes_wrong id (writing n) = h
  advance-IsClosing choice id (unsent n) = kept _ refl refl
  advance-IsClosing goes_well id (waiting n) = awaited-IsClosing _ n
  advance-IsClosing goes_wrong id (waiting n) = released-IsClosing c.lifetime_stopped n
  advance-IsClosing choice id (finishing failed) = begin_end-IsClosing _ failed
  advance-IsClosing choice id (draining failed g) = drained-IsClosing _ failed g
  advance-IsClosing choice id (ended failed) = clear_turn-IsClosing id
  advance-IsClosing choice id (cleared failed) = emit-IsClosing _
  advance-IsClosing choice id reported = h

  found-IsClosing :
      (i : ℕ) (choice : Choice) (o : Option Running) → IsClosing (advance_found i choice o c)
  unfolding step_turn
  found-IsClosing i choice none = h
  found-IsClosing i choice (some r) = elim (Bool-cases (is_reported r.phase)) [
    | inl e ↦ rw e (kept _ refl refl)
    | inr e ↦
        let next = advance-IsClosing choice r.id r.phase in
        rw e (record { closing = next.closing; stopped = next.stopped })
  ]

  -- No prompt is admitted any more.
  prompt_refused : (id : Bytes) → (admit_prompt id c).1 ≡ c
  unfolding admit_prompt
  prompt_refused id = ground (arith, h.closing)

  cancelled : (delivered : Bool) → Nearer c (cancel delivered c).1 0
  unfolding cancel
  cancelled delivered = elim (Bool-cases (is_empty c.session_id || is_empty c.current_turn)) [
    | inl e ↦ rw e stays
    | inr e ↦ rw e (same_turns _ (kept _ refl refl) refl)
  ]

  closed : Nearer c (close_events c) 0
  unfolding close_events
  closed = elim (Bool-cases (c.events_closing && is_empty c.running)) [
    | inl e ↦ rw e (same_turns _ (kept _ refl refl) refl)
    | inr e ↦ rw e stays
  ]

  accepted : (d : Delivery × Rpc) → Nearer c (accept_delivery d c) 0
  accepted (report, rpc) = elim (Bool-cases report.closes_admission) [
    | inl e ↦ rw e (same_turns _ (kept _ refl refl) refl)
    | inr e ↦ rw e (same_turns _ (kept _ refl refl) refl)
  ]

  step-Nearer : (component : Bytes) (a : Action) → Nearer c (step component a c) (moves_of a c)
  unfolding step advance_turn start_closing deliver_to
  step-Nearer component (prompts id) = elim (Bool-cases (is_free c.gate)) [
    | inl e ↦ rw (e, prompt_refused id) stays
    | inr e ↦ rw e stays
  ]
  step-Nearer component (advances i choice) = record {
    closing = found-IsClosing i choice (get_elem? c.running i);
    less = found_left i choice (get_elem? c.running i) c refl;
  }
  step-Nearer component (cancels delivered) = elim (Bool-cases (is_free c.gate)) [
    | inl e ↦ rw e (cancelled delivered)
    | inr e ↦ rw e stays
  ]
  step-Nearer component (establishes id) = same_turns _ (kept _ refl refl) refl
  step-Nearer component (sets_system_prompt prompt) = same_turns _ (kept _ refl refl) refl
  step-Nearer component takes_gate = same_turns _ (kept _ refl refl) refl
  step-Nearer component frees_gate = same_turns _ (kept _ refl refl) refl
  step-Nearer component shuts = same_turns _ (kept _ refl refl) refl
  step-Nearer component stops_lifetime =
      same_turns _ (record { closing = h.closing; stopped = refl }) refl
  step-Nearer component closes_transport = same_turns _ (kept _ refl refl) refl
  step-Nearer component starts_closing =
      same_turns _ (record { closing = refl; stopped = h.stopped }) refl
  step-Nearer component closes_events = closed
  step-Nearer component receives = same_turns _ (kept _ refl refl) refl
  step-Nearer component (permits a) = same_turns _ (kept _ refl refl) refl
  step-Nearer component (calls a) = same_turns _ (kept _ refl refl) refl
  step-Nearer component (responds id reply) = accepted (deliver_response component id reply c.rpc)
  step-Nearer component (emits kind id) = same_turns _ (emit-IsClosing _) (emit_running _)

pub run-Nearer :
    (component : Bytes) (actions : List Action) (c : Client)
    → IsClosing c
    → Nearer c (run component actions c) (moves component actions c)
unfolding run moves
run-Nearer component [] c h = stays c h
run-Nearer component (a ∷ rest) c h =
    let s = step-Nearer c h component a in
    let r = run-Nearer component rest (step component a c) s.closing in
    record { closing = r.closing; less = omega (arith, s.less, r.less) }
