-- ===== src/Bridge/Client/Ended.antt =====
-- acp/ndjsonclient.go: what every reachable client keeps of its turns and its Events channel.
use go_agent_wrapper.Shared.{
  ◌+◌, ◌≡◌, refl, sym, subst, inl, inr, ◌⊎◌, Bytes, Bool, true, false, ◌||◌, List, [], ◌∷◌, All,
  get_elem?, is_empty, Bool-cases, arith,
}
use go_agent_wrapper.Bridge.Rpc.{Reply, Rpc, Delivery, RawId, deliver_response}
use go_agent_wrapper.Bridge.Client.{
  Client, Running, OtherKind, other, turn_admitted, emit, admit_prompt, cancel, new, start_closing,
  close_events,
}
use go_agent_wrapper.Bridge.Client.Run.{
  Action, advance_turn, is_free, step, run, accept_delivery, deliver_to, prompts, advances, cancels,
  establishes, sets_system_prompt, takes_gate, frees_gate, shuts, stops_lifetime, closes_transport,
  starts_closing, closes_events, receives, permits, calls, responds, emits,
}
use go_agent_wrapper.Bridge.Client.Flight.{is_past, idle_turns_past, InFlight-named, InFlight}
use go_agent_wrapper.Bridge.Client.View.{View, view, emit-view}
use go_agent_wrapper.Bridge.Client.Events.{Holds, IsKept, open_count, start_count, end_count}
use go_agent_wrapper.Bridge.Client.Steps.{
  empty_is_nil, found_Holds, opened_Holds, admit_view, close_view,
}

-- NewTurnID gives no empty id.
abbrev pub IsMinted : Action → Type 0
IsMinted (prompts k) = is_empty k ≡ false
IsMinted _ = Unit {0}

module _ (component id : Bytes) where
  same_view : (c d : Client) → view d ≡ view c → Holds id (view c) → Holds id (view d)
  same_view c d e h = subst (Holds id) (sym e) h

  prompts_Holds :
      (k : Bytes) (c : Client)
      → is_empty k ≡ false
      → Holds id (view c)
      → Holds id (view (admit_prompt k c).1)
  prompts_Holds k c some_id h = elim (admit_view k c) [
    | inl same ↦ same_view c (admit_prompt k c).1 same h
    | inr (e, idle, still_open) ↦
        subst (Holds id) (sym e) (opened_Holds id k c some_id idle still_open h)
  ]

  close_events-Holds : (c : Client) → Holds id (view c) → Holds id (view (close_events c))
  close_events-Holds c h = elim (close_view c) [
    | inl same ↦ same_view c (close_events c) same h
    | inr (e, closing, idle) ↦ subst (Holds id) (sym e) (record {
      flight = h.flight;
      drained = λ _. idle;
      latched = λ _. closing;
      kept = h.kept;
      balance = h.balance;
    })
  ]

  emits_Holds :
      (kind : OtherKind) (k : Bytes) (c : Client)
      → Holds id (view c)
      → Holds id (view (emit (record { kind = other kind; turn_id = k }) c))
  unfolding start_count end_count
  emits_Holds kind k c h =
      let e = emit-view (record { kind = other kind; turn_id = k }) c in
      subst (Holds id) (sym e.seen) (record {
        flight = h.flight;
        drained = h.drained;
        latched = h.latched;
        kept = (refl, h.kept);
        balance = let l = h.balance in omega (arith, l);
      })

  accept_view : (d : Delivery × Rpc) (c : Client) → view (accept_delivery d c) ≡ view c
  accept_view (report, rpc) c = elim (Bool-cases report.closes_admission) [
    | inl e ↦ rw e refl
    | inr e ↦ rw e refl
  ]

  deliver_view :
      (raw : RawId) (reply : Reply) (c : Client) → view (deliver_to component raw reply c) ≡ view c
  unfolding deliver_to
  deliver_view raw reply c = accept_view (deliver_response component raw reply c.rpc) c

  view-cancel : (delivered : Bool) (c : Client) → view (cancel delivered c).1 ≡ view c
  unfolding cancel
  view-cancel delivered c = elim (Bool-cases (is_empty c.session_id || is_empty c.current_turn)) [
    | inl e ↦ rw e refl
    | inr e ↦ rw e refl
  ]

  step-Holds :
      (a : Action) (c : Client)
      → IsMinted a
      → Holds id (view c)
      → Holds id (view (step component a c))
  unfolding step advance_turn start_closing
  step-Holds (prompts k) c m h = elim (Bool-cases (is_free c.gate)) [
    | inl e ↦ rw e (prompts_Holds k c m h)
    | inr e ↦ rw e h
  ]
  step-Holds (advances i choice) c m h = found_Holds id i choice (get_elem? c.running i) c refl h
  step-Holds (cancels delivered) c m h = elim (Bool-cases (is_free c.gate)) [
    | inl e ↦ rw e (same_view c (cancel delivered c).1 (view-cancel delivered c) h)
    | inr e ↦ rw e h
  ]
  step-Holds (establishes k) c m h = h
  step-Holds (sets_system_prompt k) c m h = h
  step-Holds takes_gate c m h = h
  step-Holds frees_gate c m h = h
  step-Holds shuts c m h = h
  step-Holds stops_lifetime c m h = h
  step-Holds closes_transport c m h = h
  step-Holds starts_closing c m h = record {
    flight = h.flight;
    drained = h.drained;
    latched = λ _. refl;
    kept = h.kept;
    balance = h.balance;
  }
  step-Holds closes_events c m h = close_events-Holds c h
  step-Holds receives c m h = h
  step-Holds (permits a) c m h = h
  step-Holds (calls a) c m h = h
  step-Holds (responds raw reply) c m h =
      same_view c (deliver_to component raw reply c) (deliver_view raw reply c) h
  step-Holds (emits kind k) c m h = emits_Holds kind k c h

  pub run-Holds :
      (actions : List Action) (c : Client)
      → All IsMinted actions
      → Holds id (view c)
      → Holds id (view (run component actions c))
  unfolding run
  run-Holds [] c m h = h
  run-Holds (a ∷ rest) c m h = run-Holds rest (step component a c) m.1 (step-Holds a c m.0 h)

  pub new-Holds : (has_responder : Bool) → Holds id (view (new has_responder))
  unfolding new start_count end_count open_count
  new-Holds has_responder = record {
    flight = refl;
    drained = λ _. refl;
    latched = λ e. cc;
    kept = tt;
    balance = omega arith;
  }

no_open : (id : Bytes) (rs : List Running) → is_empty rs ≡ true → open_count id rs ≡ 0
unfolding open_count
no_open id [] e = refl
no_open id (r ∷ rs) e = cc

admitted_idle :
    (id : Bytes) (c : Client)
    → (admit_prompt id c).0 ≡ turn_admitted
    → is_empty c.current_turn ≡ true
unfolding admit_prompt
admitted_idle id c e = ground (arith, e)

closed_count :
    (id : Bytes) (v : View)
    → Holds id v
    → v.closed ≡ true
    → start_count id v.emitted ≡ end_count id v.emitted
closed_count id v h shut =
    let l = h.balance in
    let none_left = no_open id v.running (h.drained shut) in omega (arith, l, none_left)

-- What a client keeps of one turn id: it was started as often as it was ended, but for the turns of
-- that id that are under way; and with the channel closed, exactly as often.
abbrev pub IsPaired : Bytes → Client → Type 0
IsPaired id c =
    (start_count id c.emitted ≡ end_count id c.emitted + open_count id c.running)
    × ((c.events_closed ≡ false) ⊎ (start_count id c.emitted ≡ end_count id c.emitted))

paired_lem : (id : Bytes) (c : Client) → Holds id (view c) → IsPaired id c
unfolding start_count end_count open_count
paired_lem id c h = (
  h.balance,
  elim (Bool-cases c.events_closed) [
    | inl shut ↦ inr (closed_count id (view c) h shut)
    | inr still_open ↦ inl still_open
  ],
)

-- The calls of emit: whatever the goroutines of a new client do, in whatever order, while turn ids are
-- not empty: no event that starts or ends a turn is refused because the channel is closed; each id was
-- started as often as it was ended, but for the turns of that id that are still under way, and exactly
-- as often once the channel is closed; and every turn under way has given up its id or is the one that
-- CurrentTurnID names.
pub attempts_pair :
    (component : Bytes) (has_responder : Bool) (actions : List Action)
    → All IsMinted actions
    → All IsKept (run component actions (new has_responder)).emitted
      × ((id : Bytes) → IsPaired id (run component actions (new has_responder)))
      × All
          (λ (r : Running).
            (is_past r.phase ≡ true)
            ⊎ (r.id ≡ (run component actions (new has_responder)).current_turn))
          (run component actions (new has_responder)).running
attempts_pair component has_responder actions minted =
    let c = run component actions (new has_responder) in
    let held = λ (id : Bytes).
      run-Holds component id actions (new has_responder) minted
        (new-Holds component id has_responder) in
    (
      (held []).kept,
      λ id. paired_lem id c (held id),
      InFlight-named c.running c.current_turn (held []).flight,
    )

-- One turn at a time: in every client that the goroutines lead to, while turn ids are not empty, a
-- Prompt that is admitted finds every turn of the client past the point where it gave up its id.
admitted_alone :
    (component : Bytes) (has_responder : Bool) (actions : List Action) (id : Bytes)
    → All IsMinted actions
    → (admit_prompt id (run component actions (new has_responder))).0 ≡ turn_admitted
    → All
        (λ (r : Running). is_past r.phase ≡ true)
        (run component actions (new has_responder)).running
admitted_alone component has_responder actions id minted is =
    let h =
      run-Holds component id actions (new has_responder) minted
        (new-Holds component id has_responder) in
    let c = run component actions (new has_responder) in
    idle_turns_past c.running
      (subst (InFlight c.running) (empty_is_nil c.current_turn (admitted_idle id c is)) h.flight)
