-- ===== src/Permission/Coordinator.antt =====
-- acp/permission.go: BestEffortPermissionRequests, each method as its critical sections.
--
-- A `*permissionTurn` is its generation: a generation is made once, by BeginTurn, and never again,
-- so two pointers to turns are equal exactly where the generations are. A pending entry is its
-- number, and its context is cancelled exactly where `cancel` was called on it. The channel `done`
-- is closed exactly where `done_closed` is set. A uint64 that counts up by one is unbounded here.
use go_agent_wrapper.Shared.{
  ℕ, suc, ◌-◌, Bytes, Bool, true, false, not, ◌&&◌, ◌||◌, Option, none, some, List, [], ◌∷◌, nat_eq,
  leb, if◌then◌else◌,
}

abbrev pub max_concurrent : ℕ
max_concurrent = 64

pub record Pending : Type 0 where
  pub number : ℕ
  pub ctx_cancelled : Bool
  pub canceled : Bool
  pub committed : Bool
  pub generation : ℕ

pub record PermissionTurn : Type 0 where
  pub generation : ℕ
  pub active : Bool
  pub canceled : Bool
  pub ending : Bool
  pub dispatches : ℕ
  pub done_closed : Bool

pub record Coordinator : Type 0 where
  pub has_responder : Bool
  pub next_id : ℕ
  pub pending : List Pending
  pub callbacks : ℕ
  pub async_dispatches : ℕ
  pub turns : List PermissionTurn
  pub generation : ℕ
  pub session_id : Bytes
  pub closed : Bool

unfoldable pub new : Bool → Coordinator
new has_responder = record {
  has_responder = has_responder;
  next_id = 0;
  pending = [];
  callbacks = 0;
  async_dispatches = 0;
  turns = [];
  generation = 0;
  session_id = [];
  closed = false;
}

-- p.turns[g]
unfoldable pub find_turn : ℕ → List PermissionTurn → Option PermissionTurn
find_turn g [] = none
find_turn g (t ∷ ts) = if nat_eq t.generation g then some t else find_turn g ts

-- A write through the pointer of generation g.
unfoldable pub update_turn :
    ℕ → (PermissionTurn → PermissionTurn) → List PermissionTurn → List PermissionTurn
update_turn g f [] = []
update_turn g f (t ∷ ts) =
    let rest = update_turn g f ts in if nat_eq t.generation g then f t ∷ ts else t ∷ rest

unfoldable pub delete_turn : ℕ → List PermissionTurn → List PermissionTurn
delete_turn g [] = []
delete_turn g (t ∷ ts) =
    let rest = delete_turn g ts in if nat_eq t.generation g then rest else t ∷ rest

unfoldable pub find_pending : ℕ → List Pending → Option Pending
find_pending i [] = none
find_pending i (e ∷ es) = if nat_eq e.number i then some e else find_pending i es

unfoldable pub delete_pending : ℕ → List Pending → List Pending
delete_pending i [] = []
delete_pending i (e ∷ es) =
    let rest = delete_pending i es in if nat_eq e.number i then rest else e ∷ rest

-- closePermissionTurnDoneLocked
unfoldable pub close_done : PermissionTurn → PermissionTurn
close_done t =
    if not t.ending || not (nat_eq t.dispatches 0) || t.done_closed
    then t
    else record t { done_closed = true }

pub record Admission : Type 0 where
  pub generation : ℕ
  pub active_turn : Bool
  pub counted : Bool
  pub async : Bool
  pub at_capacity : Bool

abbrev pub refused_admission : ℕ → Admission
refused_admission g = record {
  generation = g;
  active_turn = false;
  counted = false;
  async = false;
  at_capacity = false;
}

abbrev pub count_dispatch : PermissionTurn → PermissionTurn
count_dispatch t = record t { dispatches = suc t.dispatches }

-- admitPermission past its guard: the current turn takes the request.
unfoldable pub admit_active : Bool → Coordinator → Admission × Coordinator
unfolding update_turn
admit_active for_dispatch p =
    let base = record (refused_admission p.generation) { active_turn = true } in
    if not for_dispatch
    then (base, p)
    else let q = record p { turns = update_turn p.generation count_dispatch p.turns } in
      if leb max_concurrent p.async_dispatches
      then (record base { counted = true; at_capacity = true }, q)
      else (
        record base { counted = true; async = true },
        record q { async_dispatches = suc p.async_dispatches },
      )

abbrev pub turn_active : Option PermissionTurn → Bool
turn_active none = false
turn_active (some t) = t.active

unfoldable pub admit : Bool → Coordinator → Admission × Coordinator
unfolding find_turn admit_active
admit for_dispatch p =
    if p.closed || not (turn_active (find_turn p.generation p.turns))
    then (refused_admission p.generation, p)
    else admit_active for_dispatch p

abbrev pub finish_dispatch : PermissionTurn → PermissionTurn
unfolding close_done
finish_dispatch t = close_done (record t { dispatches = t.dispatches - 1 })

-- completePermissionAdmission
unfoldable pub complete : Admission → Coordinator → Coordinator
unfolding update_turn close_done
complete a p = if not a.counted then p else record p {
  async_dispatches = if a.async then p.async_dispatches - 1 else p.async_dispatches;
  turns = update_turn a.generation finish_dispatch p.turns;
}

-- `entry.canceled = true; entry.cancel()` for the entries that pass the test and have not committed.
unfoldable pub cancel_entries : (Pending → Bool) → List Pending → List Pending
cancel_entries test [] = []
cancel_entries test (e ∷ es) =
    (if test e && not e.committed then record e { canceled = true; ctx_cancelled = true } else e)
    ∷ cancel_entries test es

abbrev pub end_active : PermissionTurn → PermissionTurn
unfolding close_done
end_active t =
    if t.active then close_done (record t { active = false; canceled = true; ending = true }) else t

abbrev pub new_turn : ℕ → PermissionTurn
new_turn g = record {
  generation = g;
  active = true;
  canceled = false;
  ending = false;
  dispatches = 0;
  done_closed = false;
}

-- BeginTurn. A turn of the new generation cannot be there already, so it is added.
unfoldable pub begin_turn : Coordinator → Coordinator
unfolding update_turn cancel_entries close_done
begin_turn p = record p {
  pending = cancel_entries (λ _. true) p.pending;
  generation = suc p.generation;
  turns = new_turn (suc p.generation) ∷ update_turn p.generation end_active p.turns;
}

abbrev pub stop_admission : PermissionTurn → PermissionTurn
unfolding close_done
stop_admission t = close_done (record t { active = false; ending = true })

abbrev pub of_generation : ℕ → Pending → Bool
of_generation g e = nat_eq e.generation g

-- CloseTurnAdmission, and closeTurnAdmissionLocked at the current generation.
unfoldable pub close_admission : Coordinator → Coordinator
unfolding find_turn update_turn cancel_entries close_done
close_admission p = elim (find_turn p.generation p.turns) [
  | none ↦ p
  | some t ↦ record p {
    turns = update_turn p.generation stop_admission p.turns;
    pending = cancel_entries (of_generation p.generation) p.pending;
  }
]

-- The end of EndTurn, once the turn's done channel is closed.
unfoldable pub end_turn : ℕ → Coordinator → Coordinator
unfolding delete_turn
end_turn g p = record p { turns = delete_turn g p.turns }

abbrev pub cancel_mark : PermissionTurn → PermissionTurn
cancel_mark t = record t { canceled = true }

unfoldable pub cancel_turn : Coordinator → Coordinator
unfolding update_turn cancel_entries
cancel_turn p = record p {
  turns = update_turn p.generation cancel_mark p.turns;
  pending = cancel_entries (of_generation p.generation) p.pending;
}

abbrev pub shut_turn : PermissionTurn → PermissionTurn
unfolding close_done
shut_turn t = close_done (record t { active = false; canceled = true; ending = true })

unfoldable pub shut_turns : List PermissionTurn → List PermissionTurn
unfolding close_done
shut_turns [] = []
shut_turns (t ∷ ts) = shut_turn t ∷ shut_turns ts

-- Close
unfoldable pub close : Coordinator → Coordinator
unfolding shut_turns cancel_entries
close p = record p {
  closed = true;
  turns = shut_turns p.turns;
  pending = cancel_entries (λ _. true) p.pending;
}

unfoldable pub set_session_id : Bytes → Coordinator → Coordinator
set_session_id k p = record p { session_id = k }
