-- ===== src/Lifecycle/Manager.antt =====
-- acp/lifecycle.go: Manager. A `*Session` is its position in the list of all sessions ever made.
-- A nil manager or client is not modelled.
pub mod Held
pub mod Registered
pub mod Slots
use go_agent_wrapper.Shared.{
  ℕ, Bytes, bytes, is_empty, ◌==◌, Bool, true, false, not, ◌&&◌, ◌||◌, ◌⊎◌, inl, inr, Option, none,
  some, List, [], ◌∷◌, ◌++◌, nat_eq, if◌then◌else◌, length, get_elem?, set, lookup, insert, delete,
}
use go_agent_wrapper.Shared.Table.{holds}
use go_agent_wrapper.Lifecycle.Outcome.{
  ClientError, Failure, not_live_id, duplicate_session, invalid,
}
use go_agent_wrapper.Lifecycle.Session.{
  Session, new_session, is_live, cancels, cancel_result, close_result,
}
use go_agent_wrapper.Lifecycle.Run.{Action, closes_events, step}

-- `notified` has the positions of the sessions whose finish has called onDone, and is past that call.
pub record Manager : Type 0 where
  pub store : List Session
  pub sessions : List (Bytes × ℕ)
  pub notified : List ℕ

abbrev pub new_manager : Manager
new_manager = record { store = []; sessions = []; notified = [] }

-- Launch up to the registration: the session it makes, or why there is none.
unfoldable pub reserve : Bytes → Manager → (Failure ⊎ ℕ) × Manager
unfolding lookup insert
reserve id m =
    if is_empty id
    then (inl (invalid (bytes "acp: SessionConfig.ID is required")), m)
    else elim (lookup id m.sessions) [
      | some _ ↦ (inl (duplicate_session id), m)
      | none ↦ (
        inr (length m.store),
        record m {
          store = m.store ++ new_session id ∷ [];
          sessions = insert id (length m.store) m.sessions;
        },
      )
    ]

unfoldable pub unregister : Bytes → ℕ → Manager → Manager
unfolding lookup delete
unregister id expected m = elim (lookup id m.sessions) [
  | none ↦ m
  | some h ↦ if nat_eq h expected then record m { sessions = delete id m.sessions } else m
]

-- Lookup and then a read of the session.
unfoldable pub find : Bytes → Manager → Option Session
unfolding lookup
find id m = elim (lookup id m.sessions) [ none ↦ none | some h ↦ get_elem? m.store h ]

-- IsLive
unfoldable pub is_live_id : Bytes → Manager → Bool
unfolding find is_live
is_live_id id m = elim (find id m) [ none ↦ false | some s ↦ is_live s ]

-- Manager.Cancel, of what the client's Cancel returns where it is called.
unfoldable pub cancel_id : Bytes → Option ClientError → Manager → Option Failure
unfolding find cancels cancel_result
cancel_id id e m = elim (find id m) [
  | none ↦ some (not_live_id id)
  | some s ↦ cancel_result (cancels s) e
]

-- What Manager.Close returns, once the session's Close has waited for its end.
unfoldable pub close_id : Bytes → Manager → Option Failure
unfolding find close_result
close_id id m = elim (find id m) [ none ↦ none | some s ↦ close_result s ]

-- Shutdown closes the sessions registered when it starts; these are their positions.
unfoldable pub shutdown_targets : List (Bytes × ℕ) → List ℕ
shutdown_targets [] = []
shutdown_targets ((id, h) ∷ m) = h ∷ shutdown_targets m

-- Len
unfoldable pub len : Manager → ℕ
len m = length m.sessions

abbrev pub is_registered : Option ℕ → ℕ → Bool
is_registered none h = false
is_registered (some j) h = nat_eq j h

-- In finish, the events are closed after the call of onDone.
abbrev pub may_run : Action → Bool → Bool
may_run closes_events done_called = done_called
may_run _ done_called = true

-- One section of the session at a position.
unfoldable pub session_step : (Bytes → Bytes) → ℕ → Action → Manager → Manager
unfolding holds
session_step redact h a m = elim (get_elem? m.store h) [
  | none ↦ m
  | some s ↦
      if may_run a (holds h m.notified)
      then record m { store = set m.store h (step redact a s) }
      else m
]

-- The call of onDone in the finish of the session at a position, which is once for each session.
unfoldable pub done_step : ℕ → Manager → Manager
unfolding unregister holds
done_step h m = elim (get_elem? m.store h) [
  | none ↦ m
  | some s ↦
      if s.finished && not (holds h m.notified)
      then record (unregister s.id h m) { notified = h ∷ m.notified }
      else m
]

pub data ManagerAction : Type 0 where
  reserves : Bytes → ManagerAction
  acts : ℕ → Action → ManagerAction
  unregisters : ℕ → ManagerAction

unfoldable pub manager_step : (Bytes → Bytes) → ManagerAction → Manager → Manager
manager_step redact (reserves id) m = (reserve id m).1
manager_step redact (acts h a) m = session_step redact h a m
manager_step redact (unregisters h) m = done_step h m

unfoldable pub manager_run : (Bytes → Bytes) → List ManagerAction → Manager → Manager
manager_run redact [] m = m
manager_run redact (a ∷ rest) m = manager_run redact rest (manager_step redact a m)
