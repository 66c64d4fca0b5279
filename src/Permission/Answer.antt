-- ===== src/Permission/Answer.antt =====
-- acp/permission.go: respondAdmitted, as what it does before it waits for the responder, at the
-- lock where it decides, and after the response is written. A nil coordinator is not modelled.
pub mod Chosen
use go_agent_wrapper.Shared.{
  ℕ, suc, ◌+◌, ◌-◌, Bytes, bytes, ◌==◌, is_empty, Bool, true, false, not, ◌&&◌, ◌||◌, ◌⊎◌, inl, inr,
  Option, none, some, List, [], ◌∷◌, ◌++◌, nat_eq, leb, if◌then◌else◌,
}
use go_agent_wrapper.Permission.Request.{
  PermissionOption, PermissionRequest, Wire, Resolution, cancelled, selected, cancelled_permission,
  permission_failure, parse_request, find_option,
}
use go_agent_wrapper.Permission.Coordinator.{
  max_concurrent, Pending, PermissionTurn, Coordinator, Admission, find_turn, find_pending,
  delete_pending,
}

abbrev pub capacity_reached : Resolution
capacity_reached =
    permission_failure (bytes "responder capacity reached")
      (bytes "ACP permission responder capacity reached")

-- The checks of a valid request that do not look at the turn.
unfoldable pub check_request :
    Admission → PermissionRequest → Coordinator → Resolution ⊎ PermissionRequest
check_request a request p =
    if not (is_empty p.session_id) && not (request.session_id == p.session_id)
    then inl (
        permission_failure (bytes "session mismatch")
          (bytes "ACP permission request named a different session"))
    else if not p.has_responder
    then inl (cancelled_permission (bytes "no responder configured"))
    else if not a.active_turn
    then inl (cancelled_permission (bytes "turn not active"))
    else if a.at_capacity
    then inl capacity_reached
    else inr request

unfoldable pub precheck : Admission → Option Wire → Coordinator → Resolution ⊎ PermissionRequest
unfolding check_request parse_request
precheck a w p = elim (parse_request w) [
  | none ↦
      inl (permission_failure (bytes "invalid request") (bytes "invalid ACP permission request"))
  | some request ↦ check_request a request p
]

-- The turn of the generation takes answers.
abbrev pub takes_answers : Option PermissionTurn → Bool
takes_answers none = false
takes_answers (some t) = t.active && not t.canceled

unfoldable pub live : ℕ → Coordinator → Bool
unfolding find_turn
live g p = not p.closed && takes_answers (find_turn g p.turns)

-- The lock before the responder is called: the entry's number, or an early answer.
unfoldable pub register : Admission → Coordinator → (Resolution ⊎ ℕ) × Coordinator
unfolding live
register a p =
    if not (live a.generation p)
    then (inl (cancelled_permission (bytes "turn not active")), p)
    else if leb max_concurrent p.callbacks
    then (inl capacity_reached, p)
    else (
      inr (suc p.next_id),
      record p {
        next_id = suc p.next_id;
        callbacks = suc p.callbacks;
        pending =
            p.pending
            ++ record {
              number = suc p.next_id;
              ctx_cancelled = false;
              canceled = false;
              committed = false;
              generation = a.generation;
            }
              ∷ [];
      },
    )

-- The responder's goroutine ends.
unfoldable pub callback_returned : Coordinator → Coordinator
callback_returned p = record p { callbacks = p.callbacks - 1 }

-- What the wait ended with: the context's error, another error or a panic, or a selection.
pub data Callback : Type 0 where
  context_error responder_error : Callback
  selection : Bytes → Callback

abbrev pub is_context_error : Callback → Bool
is_context_error context_error = true
is_context_error _ = false

unfoldable pub select_option : Bytes → List PermissionOption → Resolution
unfolding find_option
select_option k options =
    if is_empty k
    then cancelled_permission (bytes "responder cancelled")
    else elim (find_option k options) [
      | none ↦
          permission_failure (bytes "invalid selection")
            (bytes "ACP permission responder returned an unoffered option")
      | some o ↦ record {
        outcome = selected;
        option = o;
        reason = bytes "responder selected offered option";
        diagnostic = none;
        response_failed = false;
      }
    ]

unfoldable pub answer : Callback → List PermissionOption → Resolution
unfolding select_option
answer context_error options = cancelled_permission (bytes "request cancelled")
answer responder_error options =
    permission_failure (bytes "responder failed") (bytes "ACP permission responder failed")
answer (selection k) options = select_option k options

-- The test `canceled` at the lock.
unfoldable pub is_canceled : Pending → Coordinator → Bool
unfolding live
is_canceled e p = e.canceled || e.ctx_cancelled || not (live e.generation p)

unfoldable pub decide : Pending → Callback → List PermissionOption → Coordinator → Resolution
unfolding is_canceled answer
decide e callback options p =
    if is_canceled e p || is_context_error callback
    then cancelled_permission (bytes "request cancelled")
    else answer callback options

unfoldable pub mark_committed : ℕ → List Pending → List Pending
mark_committed i [] = []
mark_committed i (e ∷ es) =
    (if nat_eq e.number i then record e { committed = true } else e) ∷ mark_committed i es

-- The lock where the resolution is decided and the entry commits.
unfoldable pub commit :
    ℕ → Callback → List PermissionOption → Coordinator → Option Resolution × Coordinator
unfolding find_pending decide mark_committed
commit i callback options p = elim (find_pending i p.pending) [
  | none ↦ (none, p)
  | some e ↦ (some (decide e callback options p), record p { pending = mark_committed i p.pending })
]

-- After the response was written.
unfoldable pub delivered : ℕ → Coordinator → Coordinator
unfolding delete_pending
delivered i p = record p { pending = delete_pending i p.pending }
