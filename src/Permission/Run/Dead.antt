-- ===== src/Permission/Run/Dead.antt =====
-- acp/permission.go: a turn that stopped taking answers never takes one again.
use go_agent_wrapper.Shared.{
  ℕ, ◌≤◌, bytes, ◌≡◌, refl, Bool, false, not, ◌&&◌, inl, inr, none, some, List, [], ◌∷◌, nat_eq,
  if◌then◌else◌, Bool-cases, arith,
}
use go_agent_wrapper.Permission.Request.{PermissionOption, cancelled, cancelled_permission}
use go_agent_wrapper.Permission.Coordinator.{
  Pending, PermissionTurn, Coordinator, Admission, find_turn, update_turn, delete_turn, close_done,
  count_dispatch, finish_dispatch, end_active, stop_admission, cancel_mark, admit, complete,
  begin_turn, close_admission, end_turn, cancel_turn, close, set_session_id,
}
use go_agent_wrapper.Permission.Answer.{
  Callback, takes_answers, live, register, callback_returned, is_canceled, decide, commit,
  delivered,
}
use go_agent_wrapper.Permission.Run.{
  Action, admits, completes, registers, callback_returns, commits, delivers, begins_turn,
  closes_admission, cancels_turn, closes, ends_turn, sets_session, is_done, step, run,
}

-- A write that keeps the generation and gives no turn its answers back.
record Tame (f : PermissionTurn → PermissionTurn) : Type 0 where
  same : (t : PermissionTurn) → (f t).generation ≡ t.generation
  tame : (t : PermissionTurn) → takes_answers (some t) ≡ false → takes_answers (some (f t)) ≡ false

Tame-count_dispatch : Tame count_dispatch
Tame-count_dispatch = record { same = λ t. refl; tame = λ t h. h }

Tame-finish_dispatch : Tame finish_dispatch
unfolding close_done
Tame-finish_dispatch = record { same = λ t. ground arith; tame = λ t h. ground (arith, h) }

Tame-end_active : Tame end_active
unfolding close_done
Tame-end_active = record { same = λ t. ground arith; tame = λ t h. ground (arith, h) }

Tame-stop_admission : Tame stop_admission
unfolding close_done
Tame-stop_admission = record { same = λ t. ground arith; tame = λ t h. ground (arith, h) }

Tame-cancel_mark : Tame cancel_mark
Tame-cancel_mark = record { same = λ t. refl; tame = λ t h. ground (arith, h) }

update-dead :
    (g h : ℕ) (f : PermissionTurn → PermissionTurn) (ts : List PermissionTurn)
    → Tame f
    → takes_answers (find_turn g ts) ≡ false
    → takes_answers (find_turn g (update_turn h f ts)) ≡ false
unfolding find_turn update_turn
update-dead g h f [] tf d = refl
update-dead g h f (t ∷ ts) tf d = ground (arith, d, tf.same t, tf.tame t, update-dead g h f ts tf)

pub find-delete :
    (g h : ℕ) (ts : List PermissionTurn)
    → find_turn g (delete_turn h ts) ≡ (if nat_eq h g then none else find_turn g ts)
unfolding find_turn delete_turn
find-delete g h [] = ground arith
find-delete g h (t ∷ ts) = ground (arith, find-delete g h ts)

-- The turn of generation g takes no answers, now or later: it was made, and is no longer live.
pub record IsDead (g : ℕ) (p : Coordinator) : Type 0 where
  pub made : g ≤ p.generation
  pub dead : live g p ≡ false

-- A change to the turns alone.
turns-IsDead :
    (g : ℕ) (p : Coordinator) (ts : List PermissionTurn)
    → (takes_answers (find_turn g p.turns) ≡ false → takes_answers (find_turn g ts) ≡ false)
    → live g p ≡ false
    → (not p.closed && takes_answers (find_turn g ts)) ≡ false
unfolding live
turns-IsDead g p ts keep d = elim (Bool-cases p.closed) [
  | inl shut ↦ ground (arith, shut)
  | inr ajar ↦ ground (arith, keep (ground (arith, d, ajar)))
]

update-live :
    (g h : ℕ) (f : PermissionTurn → PermissionTurn) (p : Coordinator)
    → Tame f
    → live g p ≡ false
    → (not p.closed && takes_answers (find_turn g (update_turn h f p.turns))) ≡ false
update-live g h f p tf d =
    turns-IsDead g p (update_turn h f p.turns) (update-dead g h f p.turns tf) d

admit-IsDead : (g : ℕ) (b : Bool) (p : Coordinator) → IsDead g p → IsDead g (admit b p).1
unfolding admit live
admit-IsDead g b p h =
    let kept = update-live g p.generation count_dispatch p Tame-count_dispatch h.dead in
    ground (arith, h, kept)

complete-IsDead : (g : ℕ) (a : Admission) (p : Coordinator) → IsDead g p → IsDead g (complete a p)
unfolding complete live
complete-IsDead g a p h =
    let kept = update-live g a.generation finish_dispatch p Tame-finish_dispatch h.dead in
    ground (arith, h, kept)

begin_turn-IsDead : (g : ℕ) (p : Coordinator) → IsDead g p → IsDead g (begin_turn p)
unfolding begin_turn live find_turn
begin_turn-IsDead g p h =
    let kept = update-live g p.generation end_active p Tame-end_active h.dead in
    ground (arith, h.made, kept)

close_admission-IsDead : (g : ℕ) (p : Coordinator) → IsDead g p → IsDead g (close_admission p)
unfolding close_admission live
close_admission-IsDead g p h =
    let kept = update-live g p.generation stop_admission p Tame-stop_admission h.dead in
    ground (arith, h, kept)

cancel_turn-IsDead : (g : ℕ) (p : Coordinator) → IsDead g p → IsDead g (cancel_turn p)
unfolding cancel_turn live
cancel_turn-IsDead g p h =
    let kept = update-live g p.generation cancel_mark p Tame-cancel_mark h.dead in
    ground (arith, h.made, kept)

pub end_turn-IsDead : (g k : ℕ) (p : Coordinator) → IsDead g p → IsDead g (end_turn k p)
unfolding end_turn live
end_turn-IsDead g k p h = record {
  made = h.made;
  dead = turns-IsDead g p (delete_turn k p.turns) (λ d. rw find-delete (ground (arith, d))) h.dead;
}

close-dead : (g : ℕ) (p : Coordinator) → live g (close p) ≡ false
unfolding close live
close-dead g p = refl

pub step-IsDead : (a : Action) (g : ℕ) (p : Coordinator) → IsDead g p → IsDead g (step a p)
unfolding step
step-IsDead (admits b) g p h = admit-IsDead g b p h
step-IsDead (completes a) g p h = complete-IsDead g a p h
step-IsDead (registers a) g p h = unfold register live in ground (arith, h)
step-IsDead callback_returns g p h = unfold callback_returned live in ground (arith, h)
step-IsDead (commits i callback options) g p h = unfold commit live in ground (arith, h)
step-IsDead (delivers i) g p h = unfold delivered live in ground (arith, h)
step-IsDead begins_turn g p h = begin_turn-IsDead g p h
step-IsDead closes_admission g p h = close_admission-IsDead g p h
step-IsDead cancels_turn g p h = cancel_turn-IsDead g p h
step-IsDead closes g p h = record { made = unfold close in h.made; dead = close-dead g p }
step-IsDead (ends_turn k) g p h = elim (Bool-cases (is_done (find_turn k p.turns))) [
  | inl e ↦ rw e (end_turn-IsDead g k p h)
  | inr e ↦ rw e h
]
step-IsDead (sets_session k) g p h = unfold set_session_id live in ground (arith, h)

run-IsDead : (run_of : List Action) (g : ℕ) (p : Coordinator) → IsDead g p → IsDead g (run run_of p)
unfolding run
run-IsDead [] g p h = h
run-IsDead (a ∷ rest) g p h = run-IsDead rest g (step a p) (step-IsDead a g p h)

-- What ends the current turn's answers.
pub data Ends : Action → Type 0 where
  by_begin : Ends begins_turn
  by_admission : Ends closes_admission
  by_cancel : Ends cancels_turn
  by_close : Ends closes

-- The write that takes a turn's answers away.
Takes : (PermissionTurn → PermissionTurn) → Type 0
Takes f = (t : PermissionTurn) → takes_answers (some (f t)) ≡ false

update-Takes :
    (g : ℕ) (f : PermissionTurn → PermissionTurn) (ts : List PermissionTurn)
    → ((t : PermissionTurn) → (f t).generation ≡ t.generation)
    → Takes f
    → takes_answers (find_turn g (update_turn g f ts)) ≡ false
unfolding find_turn update_turn Takes
update-Takes g f [] same takes = refl
update-Takes g f (t ∷ ts) same takes =
    ground (arith, same t, takes t, update-Takes g f ts same takes)

Takes-end_active : Takes end_active
unfolding close_done Takes
Takes-end_active t = ground arith

Takes-stop_admission : Takes stop_admission
unfolding close_done Takes
Takes-stop_admission t = ground arith

Takes-cancel_mark : Takes cancel_mark
unfolding Takes
Takes-cancel_mark t = ground arith

begin_turn-ends : (p : Coordinator) → IsDead p.generation (begin_turn p)
unfolding begin_turn live find_turn
begin_turn-ends p =
    let gone = update-Takes p.generation end_active p.turns Tame-end_active.same Takes-end_active in
    ground (arith, gone)

pub close_admission-ends : (p : Coordinator) → IsDead p.generation (close_admission p)
unfolding close_admission live
close_admission-ends p =
    let gone =
      update-Takes p.generation stop_admission p.turns Tame-stop_admission.same
        Takes-stop_admission in
    ground (arith, gone)

cancel_turn-ends : (p : Coordinator) → IsDead p.generation (cancel_turn p)
unfolding cancel_turn live
cancel_turn-ends p =
    let gone =
      update-Takes p.generation cancel_mark p.turns Tame-cancel_mark.same Takes-cancel_mark in
    ground (arith, gone)

Ends-IsDead : {a : Action} → Ends a → (p : Coordinator) → IsDead p.generation (step a p)
unfolding step
Ends-IsDead by_begin p = begin_turn-ends p
Ends-IsDead by_admission p = close_admission-ends p
Ends-IsDead by_cancel p = cancel_turn-ends p
Ends-IsDead by_close p = record {
  made = unfold close in ground arith;
  dead = close-dead p.generation p;
}

pub over-cancels :
    (e : Pending) (callback : Callback) (options : List PermissionOption) (q : Coordinator)
    → live e.generation q ≡ false
    → (decide e callback options q).outcome ≡ cancelled
unfolding decide is_canceled cancelled_permission
over-cancels e callback options q over = rw over (ground arith)

pub over-refuses :
    (admission : Admission) (q : Coordinator)
    → live admission.generation q ≡ false
    → (register admission q).0 ≡ inl (cancelled_permission (bytes "turn not active"))
unfolding register
over-refuses admission q over = rw over refl

-- Once the turn of a coordinator p was superseded by BeginTurn, closed for admission, cancelled,
-- or its coordinator closed, then whatever critical sections of whatever goroutines follow, every
-- pending request of that turn that decides afterwards is answered as cancelled, whatever its
-- responder returned, and no request admitted to that turn is registered any more.
pub ended_turn_cancels :
    {a : Action}
    → Ends a
    → (p : Coordinator) (rest : List Action) (e : Pending) (callback : Callback)
      (options : List PermissionOption) (admission : Admission)
    → e.generation ≡ p.generation
    → admission.generation ≡ p.generation
    → ((decide e callback options (run rest (step a p))).outcome ≡ cancelled)
      × ((register admission (run rest (step a p))).0
          ≡ inl (cancelled_permission (bytes "turn not active")))
ended_turn_cancels {a} ends p rest e callback options admission of_turn to_turn =
    let over = (run-IsDead rest p.generation (step a p) (Ends-IsDead ends p)).dead in
    (
      over-cancels e callback options (run rest (step a p)) (rw of_turn over),
      over-refuses admission (run rest (step a p)) (rw to_turn over),
    )
