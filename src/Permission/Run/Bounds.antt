-- ===== src/Permission/Run/Bounds.antt =====
-- acp/permission.go: what every reachable coordinator keeps, whatever the goroutines do.
use go_agent_wrapper.Shared.{
  ℕ, suc, ◌≤◌, ◌≡◌, refl, Bool, true, inl, inr, some, List, [], ◌∷◌, nat_eq, Bool-cases,
  Option-cases, false, arith,
}
use go_agent_wrapper.Permission.Coordinator.{
  PermissionTurn, Coordinator, Admission, find_turn, update_turn, delete_turn, close_done,
  count_dispatch, finish_dispatch, end_active, new, stop_admission, cancel_mark, admit_active,
  admit, complete, begin_turn, close_admission, end_turn, cancel_turn, close, shut_turn, shut_turns,
  set_session_id, turn_active,
}
use go_agent_wrapper.Permission.Answer.{live, register, callback_returned, commit, delivered}
use go_agent_wrapper.Permission.Run.{
  Action, admits, completes, registers, callback_returns, commits, delivers, begins_turn,
  closes_admission, cancels_turn, closes, ends_turn, sets_session, step, run,
}
use go_agent_wrapper.Permission.Run.Ordered.{
  IsTurn, Turns, update-Turns, IsTurn-lift, count_dispatch-IsTurn, finish_dispatch-IsTurn,
  end_active-IsTurn, stop_admission-IsTurn, shut_turn-IsTurn,
}

-- What holds of every coordinator: bounded callbacks and asynchronous dispatches, and its turns.
pub record IsBounded (p : Coordinator) : Type 0 where
  pub callbacks : p.callbacks ≤ 64
  pub dispatches : p.async_dispatches ≤ 64
  pub turns : Turns p.generation (suc p.generation) p.turns

-- A write to a turn that keeps it in order.
keep-Turns :
    (top g : ℕ) (f : PermissionTurn → PermissionTurn) (ts : List PermissionTurn)
    → ((t : PermissionTurn) → (f t).generation ≡ t.generation)
    → ((t : PermissionTurn) → IsTurn top t → IsTurn top (f t))
    → Turns top (suc top) ts
    → Turns top (suc top) (update_turn g f ts)
keep-Turns top g f ts same keep h =
    update-Turns top top g (suc top) f ts same (λ t _ _ k. keep t k) (λ t _ k. k) h

widen : (top b c : ℕ) (ts : List PermissionTurn) → b ≤ c → Turns top b ts → Turns top c ts
widen top b c [] le h = h
widen top b c (t ∷ ts) le h = (omega (arith, le, h.0), h.1, h.2)

delete-Turns :
    (top b g : ℕ) (ts : List PermissionTurn) → Turns top b ts → Turns top b (delete_turn g ts)
unfolding delete_turn
delete-Turns top b g [] h = h
delete-Turns top b g (t ∷ ts) h = elim (Bool-cases (nat_eq t.generation g)) [
  | inl e ↦ rw e (
      widen top t.generation b (delete_turn g ts) (omega (arith, h.0))
        (delete-Turns top t.generation g ts h.2))
  | inr e ↦ rw e (h.0, h.1, delete-Turns top t.generation g ts h.2)
]

shut-same : (t : PermissionTurn) → (shut_turn t).generation ≡ t.generation
unfolding close_done
shut-same t = ground arith

shut-Turns : (top b : ℕ) (ts : List PermissionTurn) → Turns top b ts → Turns top b (shut_turns ts)
unfolding shut_turns
shut-Turns top b [] h = h
shut-Turns top b (t ∷ ts) h = (
  rw (shut-same t) h.0,
  shut_turn-IsTurn top t h.1,
  rw (shut-same t) (shut-Turns top t.generation ts h.2),
)

turn_active-found :
    (g : ℕ) (ts : List PermissionTurn) (t : PermissionTurn)
    → turn_active (find_turn g ts) ≡ true
    → find_turn g ts ≡ some t
    → t.active ≡ true
turn_active-found g ts t on found = ground (arith, on, found)

count-Turns :
    (p : Coordinator)
    → turn_active (find_turn p.generation p.turns) ≡ true
    → IsBounded p
    → Turns p.generation (suc p.generation) (update_turn p.generation count_dispatch p.turns)
count-Turns p on h =
    update-Turns p.generation p.generation p.generation (suc p.generation) count_dispatch p.turns
      (λ t. refl)
      (λ t found _ k.
        count_dispatch-IsTurn p.generation t (turn_active-found p.generation p.turns t on found) k)
      (λ t _ k. k) h.turns

admit-IsBounded : (b : Bool) (p : Coordinator) → IsBounded p → IsBounded (admit b p).1
unfolding admit admit_active
admit-IsBounded b p h = elim (Bool-cases (turn_active (find_turn p.generation p.turns))) [
  | inl on ↦ let counted = count-Turns p on h in ground (arith, h, on, counted)
  | inr off ↦ ground (arith, h, off)
]

complete-IsBounded : (a : Admission) (p : Coordinator) → IsBounded p → IsBounded (complete a p)
unfolding complete
complete-IsBounded a p h =
    let kept =
      keep-Turns p.generation a.generation finish_dispatch p.turns
        (unfold close_done in λ t. ground arith) (finish_dispatch-IsTurn p.generation) h.turns in
    ground (arith, h, kept)

begin_turn-IsBounded : (p : Coordinator) → IsBounded p → IsBounded (begin_turn p)
unfolding begin_turn
begin_turn-IsBounded p h = record {
  callbacks = h.callbacks;
  dispatches = h.dispatches;
  turns = (
    omega arith,
    record { current = λ _. refl; ends = refl; drained = refl },
    update-Turns p.generation (suc p.generation) p.generation (suc p.generation) end_active p.turns
        (unfold close_done in λ t. ground arith) (λ t _ _ k. end_active-IsTurn p.generation t k)
        (IsTurn-lift p.generation) h.turns,
  );
}

close_admission-IsBounded : (p : Coordinator) → IsBounded p → IsBounded (close_admission p)
unfolding close_admission
close_admission-IsBounded p h =
    let kept =
      keep-Turns p.generation p.generation stop_admission p.turns
        (unfold close_done in λ t. ground arith) (stop_admission-IsTurn p.generation) h.turns in
    ground (arith, h, kept)

cancel_turn-IsBounded : (p : Coordinator) → IsBounded p → IsBounded (cancel_turn p)
unfolding cancel_turn
cancel_turn-IsBounded p h = record {
  callbacks = h.callbacks;
  dispatches = h.dispatches;
  turns =
      keep-Turns p.generation p.generation cancel_mark p.turns (λ t. refl)
        (λ t k. record { current = k.current; ends = k.ends; drained = k.drained }) h.turns;
}

pub end_turn-IsBounded : (g : ℕ) (p : Coordinator) → IsBounded p → IsBounded (end_turn g p)
unfolding end_turn
end_turn-IsBounded g p h =
    let kept = delete-Turns p.generation (suc p.generation) g p.turns h.turns in
    ground (arith, h, kept)

pub new-IsBounded : (has_responder : Bool) → IsBounded (new has_responder)
unfolding new
new-IsBounded has_responder = record {
  callbacks = omega arith;
  dispatches = omega arith;
  turns = tt;
}

find-Turns :
    (top b g : ℕ) (ts : List PermissionTurn) (t : PermissionTurn)
    → Turns top b ts
    → find_turn g ts ≡ some t
    → t.active ≡ true
    → g ≡ top
unfolding find_turn
find-Turns top b g [] t h found on = cc
find-Turns top b g (u ∷ ts) t h found on = elim (Bool-cases (nat_eq u.generation g)) [
  | inl e ↦
      let same : u ≡ t = ground (arith, found, e) in
      let current = h.1.current (ground (arith, same, on)) in ground (arith, e, current)
  | inr e ↦ find-Turns top u.generation g ts t h.2 (ground (arith, found, e)) on
]

-- Only the current generation takes answers.
pub live_is_current :
    (g : ℕ) (p : Coordinator) → IsBounded p → live p.generation p ≡ false → live g p ≡ false
unfolding live
live_is_current g p h d = elim (Option-cases (find_turn g p.turns)) [
  | inl missing ↦ ground (arith, missing)
  | inr (t, found) ↦ elim (Bool-cases t.active) [
    | inr off ↦ ground (arith, found, off)
    | inl on ↦
        let same = find-Turns p.generation (suc p.generation) g p.turns t h.turns found on in
        rw same d
  ]
]

pub step-IsBounded : (a : Action) (p : Coordinator) → IsBounded p → IsBounded (step a p)
unfolding step
step-IsBounded (admits b) p h = admit-IsBounded b p h
step-IsBounded (completes a) p h = complete-IsBounded a p h
step-IsBounded (registers a) p h = unfold register in ground (arith, h)
step-IsBounded callback_returns p h = unfold callback_returned in ground (arith, h)
step-IsBounded (commits i callback options) p h = unfold commit in ground (arith, h)
step-IsBounded (delivers i) p h = unfold delivered in ground (arith, h)
step-IsBounded begins_turn p h = begin_turn-IsBounded p h
step-IsBounded closes_admission p h = close_admission-IsBounded p h
step-IsBounded cancels_turn p h = cancel_turn-IsBounded p h
step-IsBounded closes p h =
    unfold close in
    record {
      callbacks = h.callbacks;
      dispatches = h.dispatches;
      turns = shut-Turns p.generation (suc p.generation) p.turns h.turns;
    }
step-IsBounded (ends_turn g) p h = let kept = end_turn-IsBounded g p h in ground (arith, h, kept)
step-IsBounded (sets_session k) p h = unfold set_session_id in ground (arith, h)

run-keeps : (actions : List Action) (p : Coordinator) → IsBounded p → IsBounded (run actions p)
unfolding run
run-keeps [] p h = h
run-keeps (a ∷ rest) p h = run-keeps rest (step a p) (step-IsBounded a p h)

-- Whatever critical sections the goroutines run on a new coordinator, in whatever order: at most
-- 64 responder callbacks and at most 64 asynchronous dispatches are under way; the turns have
-- distinct generations, of which only the current one may be active; a turn is ending exactly
-- where it is no longer active; and its done channel is closed exactly where it is ending and
-- has no dispatch under way.
pub run-IsBounded :
    (actions : List Action) (has_responder : Bool) → IsBounded (run actions (new has_responder))
run-IsBounded actions has_responder =
    run-keeps actions (new has_responder)
      (unfold new in record { callbacks = omega arith; dispatches = omega arith; turns = tt })
