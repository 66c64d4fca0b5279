-- ===== src/Lifecycle/Manager/Registered.antt =====
-- acp/lifecycle.go: what a manager's registration keeps.
use go_agent_wrapper.Shared.{
  ap, ℕ, ◌<◌, Bytes, ◌==◌, ==_iff, ◌≡◌, refl, ◌∙◌, sym, true, false, inl, inr, some, List, [], ◌∷◌,
  nat_eq, length, get_elem?, lookup, length-set, subst, not, ◌&&◌, arith, Bool-cases, Option-cases,
}
use go_agent_wrapper.Shared.Table.{holds}
use go_agent_wrapper.Lifecycle.Manager.Slots.{unregister_lem}
use go_agent_wrapper.Lifecycle.Session.{Session}
use go_agent_wrapper.Lifecycle.Run.{Action, step}
use go_agent_wrapper.Lifecycle.Manager.{
  Manager, new_manager, unregister, session_step, done_step, ManagerAction, reserves, acts,
  unregisters, manager_step, manager_run, may_run, is_registered,
}
use go_agent_wrapper.Lifecycle.Manager.Held.{
  get_elem?-in, IsHeld, IsIndexed, reserve-IsIndexed, set-IsHeld,
}

-- The section runs at a session, and closes events only where finish is done with it.
registered-may :
    (m : Manager) (a : Action) (h j : ℕ) (k : Bytes)
    → IsIndexed m
    → lookup k m.sessions ≡ some j
    → may_run a (holds h m.notified) ≡ true
    → nat_eq h j ≡ true
    → may_run a false ≡ true
registered-may m a h j k index on may e =
    let same : h ≡ j = ground (arith, e) in
    let waits : holds h m.notified ≡ false = rw same (index.waits k j on) in
    ap (may_run a) (sym waits) ∙ may

session_step-IsIndexed :
    (redact : Bytes → Bytes) (h : ℕ) (a : Action) (m : Manager)
    → IsIndexed m
    → IsIndexed (session_step redact h a m)
unfolding session_step
session_step-IsIndexed redact h a m index = elim (Option-cases (get_elem? m.store h)) [
  | inl gone ↦ rw (gone, session_step) index
  | inr (s, at) ↦ elim (Bool-cases (may_run a (holds h m.notified))) [
    | inl may ↦
        rw (at, may, session_step)
          (record {
            held = λ k j on.
                set-IsHeld redact a m.store k j h s at (registered-may m a h j k index on may)
                  (index.held k j on);
            waits = index.waits;
            made = λ j done. rw (length-set m.store h (step redact a s)) (index.made j done);
          })
    | inr e ↦ rw (at, e, session_step) index
  ]
]

unregister_store : (id : Bytes) (h : ℕ) (m : Manager) → (unregister id h m).store ≡ m.store
unfolding unregister
unregister_store id h m = elim (Option-cases (lookup id m.sessions)) [
  | inl free ↦ rw (free, unregister) refl
  | inr (j, taken) ↦ elim (Bool-cases (nat_eq j h)) [
    | inl e ↦ rw (taken, e, unregister) refl
    | inr e ↦ rw (taken, e, unregister) refl
  ]
]

module _ (h : ℕ) (s : Session) (m : Manager) (index : IsIndexed m)
    (at : get_elem? m.store h ≡ some s) where
  -- What stays registered was registered before.
  stays :
      (k : Bytes) (j : ℕ)
      → lookup k (unregister s.id h m).sessions ≡ some j
      → lookup k m.sessions ≡ some j
  stays k j on = ground (arith, unregister_lem s.id k h m, on)

  -- onDone leaves no id registered for the session.
  gone_after : (k : Bytes) → lookup k (unregister s.id h m).sessions ≡ some h → ⊥
  gone_after k on =
      let before = stays k h on in
      let held = index.held k h before in
      let same : held.session ≡ s = ground (arith, at, held.found) in
      let named : s.id ≡ k = sym (ap (λ t. t.id) same) ∙ held.named in
      let mine : lookup s.id m.sessions ≡ some h = rw named before in
      let is_k : (s.id == k) ≡ true = (==_iff s.id k).1 named in
      let here : is_registered (lookup s.id m.sessions) h ≡ true = rw mine (ground arith) in
      ground (arith, unregister_lem s.id k h m, on, is_k, here)

  notified-IsIndexed : IsIndexed (record (unregister s.id h m) { notified = h ∷ m.notified })
  unfolding holds
  notified-IsIndexed = record {
    held = λ k j on.
        subst (λ store. IsHeld store k j) (sym (unregister_store s.id h m))
          (index.held k j (stays k j on));
    waits = λ k j on. elim (Bool-cases (nat_eq h j)) [
      | inl e ↦
          let same : h ≡ j = ground (arith, e) in absurd (gone_after k (on ∙ ap some (sym same)))
      | inr e ↦ let waits = index.waits k j (stays k j on) in ground (arith, e, waits)
    ];
    made = λ j done.
        subst (λ store. j < length store) (sym (unregister_store s.id h m))
          (elim (Bool-cases (nat_eq h j)) [
            | inl e ↦ let inside = get_elem?-in m.store h s at in ground (arith, inside, e)
            | inr e ↦ index.made j (ground (arith, done, e))
          ]);
  }

done_step-IsIndexed : (h : ℕ) (m : Manager) → IsIndexed m → IsIndexed (done_step h m)
unfolding done_step
done_step-IsIndexed h m index = elim (Option-cases (get_elem? m.store h)) [
  | inl gone ↦ rw (gone, done_step) index
  | inr (s, at) ↦ elim (Bool-cases (s.finished && not (holds h m.notified))) [
    | inl e ↦ rw (at, e, done_step) (notified-IsIndexed h s m index at)
    | inr e ↦ rw (at, e, done_step) index
  ]
]

step-IsIndexed :
    (redact : Bytes → Bytes) (a : ManagerAction) (m : Manager)
    → IsIndexed m
    → IsIndexed (manager_step redact a m)
unfolding manager_step
step-IsIndexed redact (reserves id) m index = reserve-IsIndexed id m index
step-IsIndexed redact (acts h a) m index = session_step-IsIndexed redact h a m index
step-IsIndexed redact (unregisters h) m index = done_step-IsIndexed h m index

run-IsIndexed :
    (redact : Bytes → Bytes) (actions : List ManagerAction) (m : Manager)
    → IsIndexed m
    → IsIndexed (manager_run redact actions m)
unfolding manager_run
run-IsIndexed redact [] m index = index
run-IsIndexed redact (a ∷ rest) m index =
    run-IsIndexed redact rest (manager_step redact a m) (step-IsIndexed redact a m index)

empty-IsIndexed : IsIndexed new_manager
unfolding lookup holds
empty-IsIndexed = record {
  held = λ k j at. let impossible : ⊥ = ground (arith, at) in absurd impossible;
  waits = λ k j at. refl;
  made = λ j done. let impossible : ⊥ = ground (arith, done) in absurd impossible;
}

-- Whatever launches, sessions and terminations a manager goes through, in whatever order: an id
-- that it has registered stands for a session of that id whose events are not yet closed, so that
-- a session is no longer found once its events are closed.
pub registered-IsHeld :
    (redact : Bytes → Bytes) (actions : List ManagerAction) (id : Bytes) (h : ℕ)
    → lookup id (manager_run redact actions new_manager).sessions ≡ some h
    → IsHeld (manager_run redact actions new_manager).store id h
registered-IsHeld redact actions id h at =
    (run-IsIndexed redact actions new_manager empty-IsIndexed).held id h at
