-- ===== src/Lifecycle/Manager/Held.antt =====
-- acp/lifecycle.go: what sections of sessions and new registrations keep of the registered sessions.
use go_agent_wrapper.Shared.{
  ap, ℕ, zero, suc, ◌<◌, Bytes, is_empty, ◌==◌, ==_iff, ◌≡◌, refl, ◌∙◌, sym, true, false, inl, inr,
  Option, none, some, List, [], ◌∷◌, ◌++◌, nat_eq, if◌then◌else◌, length, get_elem?, set, lookup,
  lookup-insert, insert, length-append, arith, Bool-cases, Option-cases,
}
use go_agent_wrapper.Shared.Table.{holds}
use go_agent_wrapper.Lifecycle.Session.{
  Session, new_session, Observed, session_ready, turn_started, other_event, turn_completed,
  turn_failed, process_exited, prompt, prompt_failed, request_close, close_client, observe_identity,
  observe_kind, observe_event, emit_diagnostic, fix_outcome, close_events, close_diagnostics,
  close_done, abort_launch, capture_identity, commit_launch, close_launch_done,
}
use go_agent_wrapper.Lifecycle.Run.{
  Action, observes, prompts, prompt_fails, requests_close, closes_client, diagnoses, captures,
  commits, aborts, ends_launch, finishes, closes_events, closes_diagnostics, closes_done, step,
}
use go_agent_wrapper.Lifecycle.Manager.{Manager, reserve, may_run}

pub kind-id :
    (redact : Bytes → Bytes) (event : Observed) (s : Session)
    → ((observe_kind redact event s).id ≡ s.id)
      × ((observe_kind redact event s).events_closed ≡ s.events_closed)
unfolding observe_kind
kind-id redact session_ready s = ground arith
kind-id redact turn_started s = (refl, refl)
kind-id redact other_event s = (refl, refl)
kind-id redact (turn_completed r) s = (refl, refl)
kind-id redact (turn_failed r) s = (refl, refl)
kind-id redact (process_exited r) s = ground arith

-- A section keeps the id, and only one of them closes the events.
abbrev pub Keeps : Session → Session → Type 0
Keeps s t = (t.id ≡ s.id) × (t.events_closed ≡ s.events_closed)

pub event-Keeps :
    (redact : Bytes → Bytes) (identity : Option Bytes) (event : Observed) (s : Session)
    → Keeps s (observe_event redact identity event s)
unfolding observe_event
event-Keeps redact none event s = ground (arith, kind-id redact event s)
event-Keeps redact (some id) event s =
    ground (arith, kind-id redact event (observe_identity (some id) s))

pub step-id :
    (redact : Bytes → Bytes) (a : Action) (s : Session)
    → ((step redact a s).id ≡ s.id)
      × (may_run a false ≡ true → (step redact a s).events_closed ≡ s.events_closed)
unfolding step
step-id redact (observes identity event) s =
    let kept = event-Keeps redact identity event s in (kept.0, λ _. kept.1)
step-id redact prompts s = unfold prompt in ground arith
step-id redact prompt_fails s = unfold prompt_failed in ground arith
step-id redact requests_close s = unfold request_close in ground arith
step-id redact (closes_client e) s = unfold close_client in ground arith
step-id redact (diagnoses m) s = unfold emit_diagnostic in ground arith
step-id redact (captures none) s = unfold capture_identity in ground arith
step-id redact (captures (some id)) s = unfold capture_identity in ground arith
step-id redact commits s = unfold commit_launch in ground arith
step-id redact aborts s = unfold abort_launch in ground arith
step-id redact ends_launch s = unfold close_launch_done in ground arith
step-id redact finishes s = unfold fix_outcome in ground arith
step-id redact closes_events s = unfold close_events in ground arith
step-id redact closes_diagnostics s = unfold close_diagnostics in ground arith
step-id redact closes_done s = unfold close_done in ground arith

module _ {A : Type 0} where
  pub get_elem?-set :
      (xs : List A) (i j : ℕ) (v : A)
      → i < length xs
      → get_elem? (set xs i v) j ≡ (if nat_eq i j then some v else get_elem? xs j)
  get_elem?-set [] i j v lt = ground (arith, lt)
  get_elem?-set (x ∷ xs) zero zero v lt = ground arith
  get_elem?-set (x ∷ xs) zero (suc j) v lt = ground arith
  get_elem?-set (x ∷ xs) (suc i) zero v lt = ground arith
  get_elem?-set (x ∷ xs) (suc i) (suc j) v lt =
      let rest = get_elem?-set xs i j v (omega (arith, lt)) in ground (arith, rest)

  pub get_elem?-in : (xs : List A) (i : ℕ) (x : A) → get_elem? xs i ≡ some x → i < length xs
  get_elem?-in [] i x h = ground (arith, h)
  get_elem?-in (y ∷ xs) zero x h = omega arith
  get_elem?-in (y ∷ xs) (suc i) x h = omega (arith, get_elem?-in xs i x h)

  pub get_elem?-append :
      (xs : List A) (j : ℕ) (v : A)
      → get_elem? (xs ++ v ∷ []) j ≡ (if nat_eq (length xs) j then some v else get_elem? xs j)
  get_elem?-append [] zero v = ground arith
  get_elem?-append [] (suc j) v = ground arith
  get_elem?-append (x ∷ xs) zero v = ground arith
  get_elem?-append (x ∷ xs) (suc j) v = let rest = get_elem?-append xs j v in ground (arith, rest)

-- What a registered id stands for: a session of that id, whose events are not closed.
pub record IsHeld (store : List Session) (id : Bytes) (h : ℕ) : Type 0 where
  pub session : Session
  pub found : get_elem? store h ≡ some session
  pub named : session.id ≡ id
  pub ajar : session.events_closed ≡ false

-- Each registered id stands for such a session, and finish has not called onDone for it.
pub record IsIndexed (m : Manager) : Type 0 where
  pub held : (id : Bytes) (h : ℕ) → lookup id m.sessions ≡ some h → IsHeld m.store id h
  pub waits : (id : Bytes) (h : ℕ) → lookup id m.sessions ≡ some h → holds h m.notified ≡ false
  pub made : (h : ℕ) → holds h m.notified ≡ true → h < length m.store

pub append-IsHeld :
    (store : List Session) (id : Bytes) (h : ℕ) (new : Session)
    → IsHeld store id h
    → IsHeld (store ++ new ∷ []) id h
append-IsHeld store id h new held = record {
  session = held.session;
  found =
      let inside = get_elem?-in store h held.session held.found in
      get_elem?-append store h new ∙ ground (arith, inside, held.found);
  named = held.named;
  ajar = held.ajar;
}

pub reserved-IsHeld :
    (id k : Bytes) (h : ℕ) (m : Manager)
    → ((id : Bytes) (h : ℕ) → lookup id m.sessions ≡ some h → IsHeld m.store id h)
    → (if id == k then some (length m.store) else lookup k m.sessions) ≡ some h
    → IsHeld (m.store ++ new_session id ∷ []) k h
reserved-IsHeld id k h m index at = elim (Bool-cases (id == k)) [
  | inl e ↦ record {
    session = new_session id;
    found = get_elem?-append m.store h (new_session id) ∙ ground (arith, at, e);
    named = (==_iff id k).0 e;
    ajar = refl;
  }
  | inr e ↦
      let before : lookup k m.sessions ≡ some h = ground (arith, at, e) in
      append-IsHeld m.store k h (new_session id) (index k h before)
]

-- A registration of a position past every session that finish is done with.
pub reserve_waits :
    (id k : Bytes) (h : ℕ) (m : Manager)
    → IsIndexed m
    → (if id == k then some (length m.store) else lookup k m.sessions) ≡ some h
    → holds h m.notified ≡ false
reserve_waits id k h m index at = elim (Bool-cases (id == k)) [
  | inl e ↦ elim (Bool-cases (holds h m.notified)) [
    | inl done ↦
        let inside = index.made h done in
        let top : length m.store ≡ h = ground (arith, at, e) in absurd (omega (arith, inside, top))
    | inr waits ↦ waits
  ]
  | inr e ↦ index.waits k h (ground (arith, at, e))
]

pub reserved-IsIndexed :
    (id : Bytes) (m : Manager)
    → IsIndexed m
    → IsIndexed (record m {
      store = m.store ++ new_session id ∷ [];
      sessions = insert id (length m.store) m.sessions;
    })
reserved-IsIndexed id m index = record {
  held = λ k h at.
      reserved-IsHeld id k h m index.held
        (sym (lookup-insert id k (length m.store) m.sessions) ∙ at);
  waits = λ k h at.
      reserve_waits id k h m index (sym (lookup-insert id k (length m.store) m.sessions) ∙ at);
  made = λ h done.
      let inside = index.made h done in
      let longer = length-append m.store (new_session id ∷ []) in omega (arith, inside, longer);
}

pub reserve-IsIndexed : (id : Bytes) (m : Manager) → IsIndexed m → IsIndexed (reserve id m).1
unfolding reserve
reserve-IsIndexed id m index = elim (Bool-cases (is_empty id)) [
  | inl e ↦ rw e index
  | inr e ↦ elim (Option-cases (lookup id m.sessions)) [
    | inl free ↦ rw (e, free) (reserved-IsIndexed id m index)
    | inr (j, taken) ↦ rw (e, taken) index
  ]
]

pub set-IsHeld :
    (redact : Bytes → Bytes) (a : Action) (store : List Session) (k : Bytes) (j h : ℕ) (s : Session)
    → get_elem? store h ≡ some s
    → (nat_eq h j ≡ true → may_run a false ≡ true)
    → IsHeld store k j
    → IsHeld (set store h (step redact a s)) k j
set-IsHeld redact a store k j h s at may held = elim (Bool-cases (nat_eq h j)) [
  | inl e ↦
      let same : s ≡ held.session = ground (arith, e, at, held.found) in
      record {
        session = step redact a s;
        found = get_elem?-set store h j (step redact a s) (get_elem?-in store h s at) ∙ rw e refl;
        named = (step-id redact a s).0 ∙ ap (λ t. t.id) same ∙ held.named;
        ajar = (step-id redact a s).1 (may e) ∙ ap (λ t. t.events_closed) same ∙ held.ajar;
      }
  | inr e ↦ record {
    session = held.session;
    found = get_elem?-set store h j (step redact a s) (get_elem?-in store h s at) ∙ rw e held.found;
    named = held.named;
    ajar = held.ajar;
  }
]
