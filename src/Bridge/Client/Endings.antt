-- ===== src/Bridge/Client/Endings.antt =====
-- acp/ndjsonclient.go: a turn that waits in EndTurn waits for a responder call of its turn.
use go_agent_wrapper.Shared.{
  ℕ, suc, ◌≡◌, refl, sym, subst, inl, inr, Bytes, Bool, true, false, ◌||◌, Option, none, some, List,
  [], ◌∷◌, get_elem?, is_empty, nat_eq, Bool-cases, Option-cases, arith,
}
use go_agent_wrapper.Permission.Coordinator.{
  Coordinator, PermissionTurn, find_turn, begin_turn, close_admission, cancel_turn,
}
use go_agent_wrapper.Permission.Run as Permissions
use go_agent_wrapper.Permission.Run.Ordered.{IsTurn, Turns}
use go_agent_wrapper.Permission.Run.Bounds.{IsBounded}
use go_agent_wrapper.Permission.Run.Stopped.{
  IsStopped, begin_turn-IsStopped, close_admission-IsStopped, cancel_turn-IsStopped, step-IsStopped,
}
use go_agent_wrapper.Bridge.Rpc.{Rpc, Delivery, deliver_response}
use go_agent_wrapper.Bridge.Client.{
  Client, Running, emit, admit_prompt, cancel, start_closing, close_events,
}
use go_agent_wrapper.Bridge.Client.Run.{
  Choice, Action, is_over, advance, step_turn, advance_found, advance_turn, is_reported, is_free,
  permit, step, run, accept_delivery, deliver_to, prompts, advances, cancels, establishes,
  sets_system_prompt, takes_gate, frees_gate, shuts, stops_lifetime, closes_transport,
  starts_closing, closes_events, receives, permits, calls, responds, emits,
}
use go_agent_wrapper.Bridge.Client.Settled.{permit-step}
use go_agent_wrapper.Bridge.Client.View.{advance_moves, moved_running}
use go_agent_wrapper.Bridge.Client.Stops.{
  StopAll, Keeps, StopAll-map, StopAll-replace, StopAll-gone, StopAll-opened, StopAll-found,
  advance-Stepped,
}

abbrev pub StopsIn : Client → Type 0
StopsIn c = StopAll c.running c.permissions

found-StopsIn :
    (i : ℕ) (choice : Choice) (o : Option Running) (c : Client)
    → get_elem? c.running i ≡ o
    → StopsIn c
    → StopsIn (advance_found i choice o c)
unfolding step_turn
found-StopsIn i choice none c found h = h
found-StopsIn i choice (some r) c found h = elim (Bool-cases (is_reported r.phase)) [
  | inl e ↦ rw e (StopAll-gone i c.running c.permissions h)
  | inr e ↦
      let d = (advance choice r.id r.phase c).1 in
      let (keep, next) =
        advance-Stepped r.id c choice r.phase (StopAll-found i r c.running c.permissions found h) in
      rw (e, moved_running (advance_moves r.id c choice r.phase))
        (StopAll-replace i _ c.running d.permissions next
          (StopAll-map c.permissions d.permissions keep c.running h))
]

changed : (c : Client) (q : Coordinator) → Keeps c.permissions q → StopsIn c → StopAll c.running q
changed c q k h = StopAll-map c.permissions q k c.running h

admit-StopsIn : (k : Bytes) (c : Client) → StopsIn c → StopsIn (admit_prompt k c).1
unfolding admit_prompt
admit-StopsIn k c h =
    let opened =
      StopAll-opened k c.running (begin_turn c.permissions)
        (changed c (begin_turn c.permissions) (λ g. begin_turn-IsStopped g c.permissions) h) in
    elim (Bool-cases (is_empty c.current_turn)) [
      | inr busy ↦ rw busy h
      | inl idle ↦ elim (Bool-cases c.closed) [
        | inl shut ↦ simp (idle, shut) h
        | inr not_shut ↦ elim (Bool-cases c.events_closing) [
          | inl closing ↦ simp (idle, not_shut, closing) h
          | inr still_open ↦ elim (Bool-cases (is_empty c.session_id)) [
            | inl no_id ↦ simp (idle, not_shut, still_open, no_id) h
            | inr with_id ↦ simp (idle, not_shut, still_open, with_id) opened
          ]
        ]
      ]
    ]

cancel-StopsIn : (delivered : Bool) (c : Client) → StopsIn c → StopsIn (cancel delivered c).1
unfolding cancel
cancel-StopsIn delivered c h =
    elim (Bool-cases (is_empty c.session_id || is_empty c.current_turn)) [
      | inl e ↦ rw e h
      | inr e ↦
          rw e
            (changed c (cancel_turn c.permissions) (λ g. cancel_turn-IsStopped g c.permissions) h)
    ]

accept-StopsIn : (d : Delivery × Rpc) (c : Client) → StopsIn c → StopsIn (accept_delivery d c)
accept-StopsIn (report, rpc) c h = elim (Bool-cases report.closes_admission) [
  | inl e ↦
      rw e (
        changed c (close_admission c.permissions) (λ g. close_admission-IsStopped g c.permissions)
          h)
  | inr e ↦ rw e h
]

permit-Keeps : (a : Permissions.Action) (p : Coordinator) → Keeps p (permit a p)
permit-Keeps a p g h = elim (permit-step a p) [
  | inl e ↦ subst (IsStopped g) (sym e) h
  | inr e ↦ subst (IsStopped g) (sym e) (step-IsStopped a g p h)
]

same-StopsIn :
    (c d : Client) → d.running ≡ c.running → d.permissions ≡ c.permissions → StopsIn c → StopsIn d
same-StopsIn c d e f h = rw (e, f) h

step-StopsIn :
    (component : Bytes) (a : Action) (c : Client) → StopsIn c → StopsIn (step component a c)
unfolding step advance_turn start_closing deliver_to
step-StopsIn component (prompts k) c h = elim (Bool-cases (is_free c.gate)) [
  | inl e ↦ rw e (admit-StopsIn k c h)
  | inr e ↦ rw e h
]
step-StopsIn component (advances i choice) c h =
    found-StopsIn i choice (get_elem? c.running i) c refl h
step-StopsIn component (cancels delivered) c h = elim (Bool-cases (is_free c.gate)) [
  | inl e ↦ rw e (cancel-StopsIn delivered c h)
  | inr e ↦ rw e h
]
step-StopsIn component (establishes k) c h = h
step-StopsIn component (sets_system_prompt k) c h = h
step-StopsIn component takes_gate c h = h
step-StopsIn component frees_gate c h = h
step-StopsIn component shuts c h = h
step-StopsIn component stops_lifetime c h = h
step-StopsIn component closes_transport c h = h
step-StopsIn component starts_closing c h = h
step-StopsIn component closes_events c h =
    same-StopsIn c (close_events c) (unfold close_events in ground arith)
      (unfold close_events in ground arith) h
step-StopsIn component receives c h = h
step-StopsIn component (permits a) c h =
    changed c (permit a c.permissions) (permit-Keeps a c.permissions) h
step-StopsIn component (calls a) c h = h
step-StopsIn component (responds raw reply) c h =
    accept-StopsIn (deliver_response component raw reply c.rpc) c h
step-StopsIn component (emits kind k) c h =
    same-StopsIn c (emit _ c) (unfold emit in ground arith) (unfold emit in ground arith) h

pub run-StopsIn :
    (component : Bytes) (actions : List Action) (c : Client)
    → StopsIn c
    → StopsIn (run component actions c)
unfolding run
run-StopsIn component [] c h = h
run-StopsIn component (a ∷ rest) c h =
    run-StopsIn component rest (step component a c) (step-StopsIn component a c h)

found-IsTurn :
    (top b g : ℕ) (ts : List PermissionTurn) (t : PermissionTurn)
    → Turns top b ts
    → find_turn g ts ≡ some t
    → IsTurn top t
unfolding find_turn
found-IsTurn top b g [] t h found = cc
found-IsTurn top b g (u ∷ ts) t h found = elim (Bool-cases (nat_eq u.generation g)) [
  | inl e ↦ let same : u ≡ t = ground (arith, found, e) in subst (IsTurn top) same h.1
  | inr e ↦ found-IsTurn top u.generation g ts t h.2 (ground (arith, found, e))
]

-- The turn of a generation is there, and a responder call of it is under way.
abbrev pub HasCall : ℕ → List PermissionTurn → Type 0
HasCall g ts = (t : PermissionTurn) × (find_turn g ts ≡ some t) × (nat_eq t.dispatches 0 ≡ false)

-- EndTurn waits only for responder calls of its turn.
pub waits_for_call :
    (g : ℕ) (p : Coordinator)
    → IsBounded p
    → IsStopped g p
    → is_over (find_turn g p.turns) ≡ false
    → HasCall g p.turns
waits_for_call g p bounded h waits = elim (Option-cases (find_turn g p.turns)) [
  | inl gone ↦ let impossible : ⊥ = ground (arith, waits, gone) in absurd impossible
  | inr (t, found) ↦
      let turn = found-IsTurn p.generation (suc p.generation) g p.turns t bounded.turns found in
      let ending : t.ending ≡ true = let s = h.stopped in ground (arith, s, found) in
      let shut : t.done_closed ≡ false = ground (arith, waits, found) in
      let drained = turn.drained in (t, found, ground (arith, drained, ending, shut))
]
