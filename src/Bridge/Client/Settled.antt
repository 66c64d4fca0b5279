-- ===== src/Bridge/Client/Settled.antt =====
-- acp/ndjsonclient.go and acp/permission.go: a coordinator that grants nothing outside a turn.
use go_agent_wrapper.Shared.{
  ℕ, ◌≡◌, refl, sym, subst, ◌∙◌, inl, inr, ◌⊎◌, false, some, List, get_elem?, arith,
}
use go_agent_wrapper.Permission.Coordinator.{
  admit, admit_active, complete, close, set_session_id, Coordinator, close_admission, end_turn,
  cancel_turn,
}
use go_agent_wrapper.Permission.Answer.{live, register, callback_returned, commit, delivered}
use go_agent_wrapper.Permission.Run as Permissions
use go_agent_wrapper.Permission.Run.Dead.{step-IsDead, close_admission-ends, end_turn-IsDead}
use go_agent_wrapper.Permission.Run.Bounds.{IsBounded, step-IsBounded, end_turn-IsBounded}
use go_agent_wrapper.Bridge.Client.{Client, Running, new}
use go_agent_wrapper.Bridge.Client.Run.{permit, replace}
use go_agent_wrapper.Bridge.Client.Calm.{
  has_begun, Calm, has_begun-replace, keeps, closes, finds_none, drains,
}

-- The coordinator keeps its bounds; and where no turn has begun, it grants nothing.
pub record Settled (running : List Running) (p : Coordinator) : Type 0 where
  pub bounded : IsBounded p
  pub over : has_begun running ≡ false → live p.generation p ≡ false

-- A step of the coordinator that begins no turn.
pub permit_generation :
    (a : Permissions.Action) (p : Coordinator) → (permit a p).generation ≡ p.generation
unfolding Permissions.step
permit_generation (Permissions.admits b) p = unfold admit admit_active in ground arith
permit_generation (Permissions.completes a) p = unfold complete in ground arith
permit_generation (Permissions.registers a) p = unfold register in ground arith
permit_generation Permissions.callback_returns p = unfold callback_returned in refl
permit_generation (Permissions.commits i callback options) p = unfold commit in ground arith
permit_generation (Permissions.delivers i) p = unfold delivered in refl
permit_generation Permissions.begins_turn p = refl
permit_generation Permissions.closes_admission p = unfold close_admission in ground arith
permit_generation Permissions.cancels_turn p = unfold cancel_turn in refl
permit_generation Permissions.closes p = unfold close in refl
permit_generation (Permissions.ends_turn g) p = unfold end_turn in ground arith
permit_generation (Permissions.sets_session k) p = unfold set_session_id in refl

pub step_dead :
    (a : Permissions.Action) (p : Coordinator)
    → live p.generation p ≡ false
    → live p.generation (Permissions.step a p) ≡ false
step_dead a p over =
    (step-IsDead a p.generation p (record { made = omega arith; dead = over })).dead

pub permit-Settled :
    (a : Permissions.Action) (rs : List Running) (p : Coordinator)
    → (permit a p ≡ p) ⊎ (permit a p ≡ Permissions.step a p)
    → Settled rs p
    → Settled rs (permit a p)
permit-Settled a rs p (inl e) h = subst (Settled rs) (sym e) h
permit-Settled a rs p (inr e) h = record {
  bounded = subst IsBounded (sym e) (step-IsBounded a p h.bounded);
  over = λ quiet.
      rw (permit_generation a p)
        (subst (λ q. live p.generation q ≡ false) (sym e) (step_dead a p (h.over quiet)));
}

pub permit-step :
    (a : Permissions.Action) (p : Coordinator)
    → (permit a p ≡ p) ⊎ (permit a p ≡ Permissions.step a p)
permit-step Permissions.begins_turn p = inl refl
permit-step (Permissions.admits b) p = inr refl
permit-step (Permissions.completes a) p = inr refl
permit-step (Permissions.registers a) p = inr refl
permit-step Permissions.callback_returns p = inr refl
permit-step (Permissions.commits i callback options) p = inr refl
permit-step (Permissions.delivers i) p = inr refl
permit-step Permissions.closes_admission p = inr refl
permit-step Permissions.cancels_turn p = inr refl
permit-step Permissions.closes p = inr refl
permit-step (Permissions.ends_turn g) p = inr refl
permit-step (Permissions.sets_session k) p = inr refl

pub close_admission-Settled :
    (rs : List Running) (p : Coordinator) → Settled rs p → Settled rs (close_admission p)
close_admission-Settled rs p h =
    unfold Permissions.step in permit-Settled Permissions.closes_admission rs p (inr refl) h

pub cancel_turn-Settled :
    (rs : List Running) (p : Coordinator) → Settled rs p → Settled rs (cancel_turn p)
cancel_turn-Settled rs p h =
    unfold Permissions.step in permit-Settled Permissions.cancels_turn rs p (inr refl) h

pub close_generation : (p : Coordinator) → (close_admission p).generation ≡ p.generation
unfolding close_admission
close_generation p = ground arith

-- Whatever has begun, nothing is granted once the admission is closed.
pub closed-Settled :
    (rs : List Running) (p : Coordinator) → IsBounded p → Settled rs (close_admission p)
closed-Settled rs p h = record {
  bounded = unfold Permissions.step in step-IsBounded Permissions.closes_admission p h;
  over = λ _.
      subst (λ g. live g (close_admission p) ≡ false) (sym (close_generation p))
        (close_admission-ends p).dead;
}

pub moved-Settled :
    (i : ℕ) (r new : Running) (c d : Client)
    → get_elem? c.running i ≡ some r
    → Calm r.phase c new.phase d
    → Settled c.running c.permissions
    → Settled (replace i (some new) c.running) d.permissions
moved-Settled i r new c d found (keeps same e) h =
    subst (Settled (replace i (some new) c.running)) (sym e) (record {
      bounded = h.bounded;
      over = λ quiet. h.over (sym (has_begun-replace i r new c.running found same) ∙ quiet);
    })
moved-Settled i r new c d found (closes e) h =
    subst (Settled (replace i (some new) c.running)) (sym e)
      (closed-Settled (replace i (some new) c.running) c.permissions h.bounded)
moved-Settled i r new c d found (finds_none gone e) h =
    subst (Settled (replace i (some new) c.running)) (sym e)
      (record { bounded = h.bounded; over = λ _. unfold live in ground (arith, gone) })
moved-Settled i r new c d found (drains g same e) h =
    subst (Settled (replace i (some new) c.running)) (sym e) (record {
      bounded = end_turn-IsBounded g c.permissions h.bounded;
      over = λ quiet.
          let was = h.over (sym (has_begun-replace i r new c.running found same) ∙ quiet) in
          unfold end_turn in
          (end_turn-IsDead c.permissions.generation g c.permissions
            (record { made = omega arith; dead = was })).dead;
    })
