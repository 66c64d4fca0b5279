-- ===== src/Permission/Run/Stopped.antt =====
-- acp/permission.go: a turn whose admission was stopped stays so, until it is deleted.
use go_agent_wrapper.Shared.{
  ℕ, ◌≤◌, ◌≡◌, refl, Bool, true, false, not, inl, inr, Option, none, some, List, [], ◌∷◌,
  Bool-cases, arith,
}
use go_agent_wrapper.Permission.Coordinator.{
  PermissionTurn, Coordinator, Admission, find_turn, update_turn, close_done, count_dispatch,
  finish_dispatch, end_active, stop_admission, shut_turns, cancel_mark, admit, complete, begin_turn,
  close_admission, end_turn, cancel_turn, close, set_session_id,
}
use go_agent_wrapper.Permission.Answer.{register, callback_returned, commit, delivered}
use go_agent_wrapper.Permission.Run.{
  Action, admits, completes, registers, callback_returns, commits, delivers, begins_turn,
  closes_admission, cancels_turn, closes, ends_turn, sets_session, is_done, step,
}
use go_agent_wrapper.Permission.Run.Dead.{find-delete}

-- The turn, if there is one, takes requests: it is not ending.
abbrev pub admits_still : Option PermissionTurn → Bool
admits_still none = false
admits_still (some t) = not t.ending

pub record IsStopped (g : ℕ) (p : Coordinator) : Type 0 where
  pub made : g ≤ p.generation
  pub stopped : admits_still (find_turn g p.turns) ≡ false

-- A write that keeps the generation, and that a turn is ending.
record Firm (f : PermissionTurn → PermissionTurn) : Type 0 where
  same : (t : PermissionTurn) → (f t).generation ≡ t.generation
  firm : (t : PermissionTurn) → t.ending ≡ true → (f t).ending ≡ true

Firm-count_dispatch : Firm count_dispatch
Firm-count_dispatch = record { same = λ t. refl; firm = λ t h. h }

Firm-finish_dispatch : Firm finish_dispatch
unfolding close_done
Firm-finish_dispatch = record { same = λ t. ground arith; firm = λ t h. ground (arith, h) }

Firm-end_active : Firm end_active
unfolding close_done
Firm-end_active = record { same = λ t. ground arith; firm = λ t h. ground (arith, h) }

Firm-stop_admission : Firm stop_admission
unfolding close_done
Firm-stop_admission = record { same = λ t. ground arith; firm = λ t h. ground arith }

Firm-cancel_mark : Firm cancel_mark
Firm-cancel_mark = record { same = λ t. refl; firm = λ t h. h }

update-stopped :
    (g h : ℕ) (f : PermissionTurn → PermissionTurn) (ts : List PermissionTurn)
    → Firm f
    → admits_still (find_turn g ts) ≡ false
    → admits_still (find_turn g (update_turn h f ts)) ≡ false
unfolding find_turn update_turn
update-stopped g h f [] k d = refl
update-stopped g h f (t ∷ ts) k d = ground (arith, d, k.same t, k.firm t, update-stopped g h f ts k)

shut-stopped :
    (g : ℕ) (ts : List PermissionTurn) → admits_still (find_turn g (shut_turns ts)) ≡ false
unfolding find_turn shut_turns close_done
shut-stopped g [] = refl
shut-stopped g (t ∷ ts) = ground (arith, shut-stopped g ts)

admit-IsStopped : (g : ℕ) (b : Bool) (p : Coordinator) → IsStopped g p → IsStopped g (admit b p).1
unfolding admit
admit-IsStopped g b p h =
    let kept = update-stopped g p.generation count_dispatch p.turns Firm-count_dispatch h.stopped in
    ground (arith, h, kept)

complete-IsStopped :
    (g : ℕ) (a : Admission) (p : Coordinator) → IsStopped g p → IsStopped g (complete a p)
unfolding complete
complete-IsStopped g a p h =
    let kept =
      update-stopped g a.generation finish_dispatch p.turns Firm-finish_dispatch h.stopped in
    ground (arith, h, kept)

pub begin_turn-IsStopped : (g : ℕ) (p : Coordinator) → IsStopped g p → IsStopped g (begin_turn p)
unfolding begin_turn find_turn
begin_turn-IsStopped g p h =
    let kept = update-stopped g p.generation end_active p.turns Firm-end_active h.stopped in
    ground (arith, h.made, kept)

pub close_admission-IsStopped :
    (g : ℕ) (p : Coordinator) → IsStopped g p → IsStopped g (close_admission p)
unfolding close_admission
close_admission-IsStopped g p h =
    let kept = update-stopped g p.generation stop_admission p.turns Firm-stop_admission h.stopped in
    ground (arith, h, kept)

pub cancel_turn-IsStopped : (g : ℕ) (p : Coordinator) → IsStopped g p → IsStopped g (cancel_turn p)
unfolding cancel_turn
cancel_turn-IsStopped g p h =
    let kept = update-stopped g p.generation cancel_mark p.turns Firm-cancel_mark h.stopped in
    ground (arith, h.made, kept)

pub end_turn-IsStopped : (g k : ℕ) (p : Coordinator) → IsStopped g p → IsStopped g (end_turn k p)
unfolding end_turn
end_turn-IsStopped g k p h = record {
  made = h.made;
  stopped = let d = h.stopped in rw (find-delete g k p.turns) (ground (arith, d));
}

pub step-IsStopped : (a : Action) (g : ℕ) (p : Coordinator) → IsStopped g p → IsStopped g (step a p)
unfolding step
step-IsStopped (admits b) g p h = admit-IsStopped g b p h
step-IsStopped (completes a) g p h = complete-IsStopped g a p h
step-IsStopped (registers a) g p h = unfold register in ground (arith, h)
step-IsStopped callback_returns g p h = unfold callback_returned in ground (arith, h)
step-IsStopped (commits i callback options) g p h = unfold commit in ground (arith, h)
step-IsStopped (delivers i) g p h = unfold delivered in ground (arith, h)
step-IsStopped begins_turn g p h = begin_turn-IsStopped g p h
step-IsStopped closes_admission g p h = close_admission-IsStopped g p h
step-IsStopped cancels_turn g p h = cancel_turn-IsStopped g p h
step-IsStopped closes g p h = record {
  made = unfold close in h.made;
  stopped = unfold close in ground (arith, h, shut-stopped g p.turns);
}
step-IsStopped (ends_turn k) g p h = elim (Bool-cases (is_done (find_turn k p.turns))) [
  | inl e ↦ rw e (end_turn-IsStopped g k p h)
  | inr e ↦ rw e h
]
step-IsStopped (sets_session k) g p h = unfold set_session_id in ground (arith, h)

stop-stopped :
    (g : ℕ) (ts : List PermissionTurn)
    → admits_still (find_turn g (update_turn g stop_admission ts)) ≡ false
unfolding find_turn update_turn close_done
stop-stopped g [] = refl
stop-stopped g (t ∷ ts) = ground (arith, stop-stopped g ts)

find-generation :
    (g : ℕ) (ts : List PermissionTurn) (t : PermissionTurn)
    → find_turn g ts ≡ some t
    → t.generation ≡ g
unfolding find_turn
find-generation g [] t h = cc
find-generation g (u ∷ ts) t h = ground (arith, h, find-generation g ts t)

-- The turn whose admission EndTurn closes.
pub stops_found :
    (p : Coordinator) (t : PermissionTurn)
    → find_turn p.generation p.turns ≡ some t
    → IsStopped t.generation (close_admission p)
unfolding close_admission
stops_found p t found =
    let e = find-generation p.generation p.turns t found in
    let kept = stop-stopped p.generation p.turns in rw e (ground (arith, found, kept))
