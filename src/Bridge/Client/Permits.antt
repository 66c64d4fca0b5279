-- ===== src/Bridge/Client/Permits.antt =====
-- acp/ndjsonclient.go and acp/permission.go together: while no turn of the client is in flight,
-- no permission request is granted.
use go_agent_wrapper.Shared.{
  ℕ, ◌≡◌, refl, sym, subst, ◌∙◌, inl, inr, Bytes, bytes, Bool, true, false, ◌||◌, Option, none,
  some, List, [], ◌∷◌, ◌++◌, All, get_elem?, is_empty, Bool-cases, arith,
}
use go_agent_wrapper.Permission.Request.{PermissionOption, cancelled, cancelled_permission}
use go_agent_wrapper.Permission.Coordinator.{Pending, Admission, find_turn, begin_turn}
use go_agent_wrapper.Permission.Answer.{Callback, live, register, decide, delivered}
use go_agent_wrapper.Permission.Run as Permissions
use go_agent_wrapper.Permission.Run.Dead.{over-cancels, over-refuses}
use go_agent_wrapper.Permission.Run.Bounds.{step-IsBounded, new-IsBounded, live_is_current}
use go_agent_wrapper.Bridge.Rpc.{Rpc, Delivery, deliver_response}
use go_agent_wrapper.Bridge.Client.{
  Client, Running, Phase, reported, cleared, emit, admit_prompt, cancel, opened_turn, new,
  close_events, start_closing,
}
use go_agent_wrapper.Bridge.Client.Flight.{is_past, idle_turns_past, InFlight}
use go_agent_wrapper.Bridge.Client.Ended.{IsMinted, run-Holds, new-Holds}
use go_agent_wrapper.Bridge.Client.Steps.{empty_is_nil}
use go_agent_wrapper.Bridge.Client.View.{advance_moves, moved_running}
use go_agent_wrapper.Bridge.Client.Run.{
  Choice, Action, advance, replace, step_turn, advance_found, advance_turn, is_reported, is_free,
  step, run, accept_delivery, deliver_to, prompts, advances, cancels, establishes,
  sets_system_prompt, takes_gate, frees_gate, shuts, stops_lifetime, closes_transport,
  starts_closing, closes_events, receives, permits, calls, responds, emits,
}
use go_agent_wrapper.Bridge.Client.Calm.{
  is_begun, has_begun, advance-Calm, has_begun-gone, has_begun-opened,
}
use go_agent_wrapper.Bridge.Client.Settled.{
  Settled, permit-Settled, permit-step, close_admission-Settled, cancel_turn-Settled, moved-Settled,
}

found_Settled :
    (i : ℕ) (choice : Choice) (o : Option Running) (c : Client)
    → get_elem? c.running i ≡ o
    → Settled c.running c.permissions
    → Settled (advance_found i choice o c).running (advance_found i choice o c).permissions
unfolding step_turn replace
found_Settled i choice none c found h = h
found_Settled i choice (some r) c found h = elim (Bool-cases (is_reported r.phase)) [
  | inl done ↦ rw done (record {
    bounded = h.bounded;
    over = λ quiet. h.over (sym (has_begun-gone i r c.running found done) ∙ quiet);
  })
  | inr not_done ↦
      rw (not_done, moved_running (advance_moves r.id c choice r.phase))
        (moved-Settled i r _ c (advance choice r.id r.phase c).1 found
          (advance-Calm r.id c choice r.phase) h)
]

opened-Settled :
    (k : Bytes) (c : Client)
    → Settled c.running c.permissions
    → Settled (c.running ++ opened_turn k ∷ []) (begin_turn c.permissions)
opened-Settled k c h = record {
  bounded =
      unfold Permissions.step in step-IsBounded Permissions.begins_turn c.permissions h.bounded;
  over = λ quiet. let begun = has_begun-opened k c.running in cc;
}

admit-Settled :
    (k : Bytes) (c : Client)
    → Settled c.running c.permissions
    → Settled (admit_prompt k c).1.running (admit_prompt k c).1.permissions
unfolding admit_prompt
admit-Settled k c h =
    let opened = opened-Settled k c h in
    elim (Bool-cases (is_empty c.current_turn)) [
      | inr busy ↦ rw busy h
      | inl idle ↦ elim (Bool-cases c.closed) [
        | inl shut ↦ simp (idle, shut) h
        | inr not_shut ↦ elim (Bool-cases c.events_closing) [
          | inl closing ↦ simp (idle, not_shut, closing) h
          | inr still_open ↦ elim (Bool-cases (is_empty c.session_id)) [
            | inl no_id ↦ simp (idle, not_shut, still_open, no_id) h
            | inr with_id ↦ simp (idle, not_shut, still_open, with_id) opened
          ]
        ]
      ]
    ]

cancel-Settled :
    (delivered : Bool) (c : Client)
    → Settled c.running c.permissions
    → Settled (cancel delivered c).1.running (cancel delivered c).1.permissions
unfolding cancel
cancel-Settled delivered c h =
    elim (Bool-cases (is_empty c.session_id || is_empty c.current_turn)) [
      | inl e ↦ simp e h
      | inr e ↦ simp e (cancel_turn-Settled c.running c.permissions h)
    ]

accept-Settled :
    (d : Delivery × Rpc) (c : Client)
    → Settled c.running c.permissions
    → Settled (accept_delivery d c).running (accept_delivery d c).permissions
accept-Settled (report, rpc) c h = elim (Bool-cases report.closes_admission) [
  | inl e ↦ rw e (close_admission-Settled c.running c.permissions h)
  | inr e ↦ rw e h
]

same-Settled :
    (c d : Client)
    → d.running ≡ c.running
    → d.permissions ≡ c.permissions
    → Settled c.running c.permissions
    → Settled d.running d.permissions
same-Settled c d e f h = rw (e, f) h

step-Settled :
    (component : Bytes) (a : Action) (c : Client)
    → Settled c.running c.permissions
    → Settled (step component a c).running (step component a c).permissions
unfolding step advance_turn start_closing
step-Settled component (prompts k) c h = elim (Bool-cases (is_free c.gate)) [
  | inl e ↦ rw e (admit-Settled k c h)
  | inr e ↦ rw e h
]
step-Settled component (advances i choice) c h =
    found_Settled i choice (get_elem? c.running i) c refl h
step-Settled component (cancels delivered) c h = elim (Bool-cases (is_free c.gate)) [
  | inl e ↦ rw e (cancel-Settled delivered c h)
  | inr e ↦ rw e h
]
step-Settled component (establishes k) c h = h
step-Settled component (sets_system_prompt k) c h = h
step-Settled component takes_gate c h = h
step-Settled component frees_gate c h = h
step-Settled component shuts c h = h
step-Settled component stops_lifetime c h = h
step-Settled component closes_transport c h = h
step-Settled component starts_closing c h = h
step-Settled component closes_events c h =
    same-Settled c (close_events c) (unfold close_events in ground arith)
      (unfold close_events in ground arith) h
step-Settled component receives c h = h
step-Settled component (permits a) c h =
    permit-Settled a c.running c.permissions (permit-step a c.permissions) h
step-Settled component (calls a) c h = h
step-Settled component (responds raw reply) c h =
    unfold deliver_to in accept-Settled (deliver_response component raw reply c.rpc) c h
step-Settled component (emits kind k) c h =
    same-Settled c (emit _ c) (unfold emit in ground arith) (unfold emit in ground arith) h

pub run-Settled :
    (component : Bytes) (actions : List Action) (c : Client)
    → Settled c.running c.permissions
    → Settled (run component actions c).running (run component actions c).permissions
unfolding run
run-Settled component [] c h = h
run-Settled component (a ∷ rest) c h =
    run-Settled component rest (step component a c) (step-Settled component a c h)

pub new-Settled :
    (has_responder : Bool) → Settled (new has_responder).running (new has_responder).permissions
unfolding new
new-Settled has_responder = record {
  bounded = new-IsBounded has_responder;
  over = λ _. unfold live find_turn in ground arith;
}

past_phase : (p : Phase) → is_past p ≡ true → is_begun p ≡ false
past_phase reported e = refl
past_phase (cleared failed) e = refl
past_phase _ e = cc

past_not_begun :
    (rs : List Running) → All (λ (r : Running). is_past r.phase ≡ true) rs → has_begun rs ≡ false
past_not_begun [] h = refl
past_not_begun (r ∷ rest) h = rw (past_phase r.phase h.0, past_not_begun rest h.1) refl

-- While no turn is in flight, nothing is granted: in every client that the goroutines of a new one
-- lead to, while turn ids are not empty, where CurrentTurnID is empty, every pending permission
-- request that is decided is answered as cancelled, whatever its responder returned, and no request
-- is registered with the responder any more.
pub idle_grants_nothing :
    (component : Bytes) (has_responder : Bool) (actions : List Action) (e : Pending)
    (callback : Callback) (options : List PermissionOption) (admission : Admission)
    → All IsMinted actions
    → is_empty (run component actions (new has_responder)).current_turn ≡ true
    → ((decide e callback options (run component actions (new has_responder)).permissions).outcome
        ≡ cancelled)
      × ((register admission (run component actions (new has_responder)).permissions).0
          ≡ inl (cancelled_permission (bytes "turn not active")))
idle_grants_nothing component has_responder actions e callback options admission minted idle =
    let c = run component actions (new has_responder) in
    let h =
      run-Holds component [] actions (new has_responder) minted
        (new-Holds component [] has_responder) in
    let settled = run-Settled component actions (new has_responder) (new-Settled has_responder) in
    let past =
      idle_turns_past c.running
        (subst (InFlight c.running) (empty_is_nil c.current_turn idle) h.flight) in
    let over = settled.over (past_not_begun c.running past) in
    (
      over-cancels e callback options c.permissions
          (live_is_current e.generation c.permissions settled.bounded over),
      over-refuses admission c.permissions
          (live_is_current admission.generation c.permissions settled.bounded over),
    )
