-- ===== src/Permission/Run.antt =====
-- acp/permission.go: what goroutines do to one coordinator, as sequences of critical sections.
-- Every interleaving of the methods is such a sequence.
pub mod Dead
pub mod Ordered
pub mod Bounds
pub mod Stopped
use go_agent_wrapper.Shared.{
  ℕ, Bytes, Bool, true, false, Option, none, some, List, [], ◌∷◌, if◌then◌else◌,
}
use go_agent_wrapper.Permission.Request.{PermissionOption}
use go_agent_wrapper.Permission.Coordinator.{
  PermissionTurn, Coordinator, Admission, find_turn, admit, complete, begin_turn, close_admission,
  end_turn, cancel_turn, close, set_session_id,
}
use go_agent_wrapper.Permission.Answer.{Callback, register, callback_returned, commit, delivered}

pub data Action : Type 0 where
  admits : Bool → Action
  completes registers : Admission → Action
  callback_returns : Action
  commits : ℕ → Callback → List PermissionOption → Action
  delivers : ℕ → Action
  begins_turn closes_admission cancels_turn closes : Action
  ends_turn : ℕ → Action
  sets_session : Bytes → Action

abbrev pub is_done : Option PermissionTurn → Bool
is_done none = false
is_done (some t) = t.done_closed

-- EndTurn goes on only once the channel of its turn is closed.
unfoldable pub step : Action → Coordinator → Coordinator
step (admits for_dispatch) p = (admit for_dispatch p).1
step (completes a) p = complete a p
step (registers a) p = (register a p).1
step callback_returns p = callback_returned p
step (commits i callback options) p = (commit i callback options p).1
step (delivers i) p = delivered i p
step begins_turn p = begin_turn p
step closes_admission p = close_admission p
step cancels_turn p = cancel_turn p
step closes p = close p
step (ends_turn g) p = if is_done (find_turn g p.turns) then end_turn g p else p
step (sets_session k) p = set_session_id k p

unfoldable pub run : List Action → Coordinator → Coordinator
run [] p = p
run (a ∷ rest) p = run rest (step a p)
