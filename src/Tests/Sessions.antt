-- ===== src/Tests/Sessions.antt =====
-- acp/lifecycle.go: sessions and their manager at concrete inputs.
use go_agent_wrapper.Lifecycle.Run.Turns.{one_turn_at_a_time}
use go_agent_wrapper.Shared.{
  Bytes, bytes, ◌==◌, ◌≡◌, refl, true, false, ◌||◌, none, some, List, [], ◌∷◌, lookup, insert,
  delete, inl,
}
use go_agent_wrapper.Shared.Table.{holds}
use go_agent_wrapper.Lifecycle.Redact.{
  Json, text, object, field, no_fields, redact_json, IsClean, Redacts, redact_json_lem,
}
use go_agent_wrapper.Lifecycle.Outcome.{ended, lifecycle, duplicate_session}
use go_agent_wrapper.Lifecycle.Session.{
  turn_started, close_client, close_events, close_launch_done, commit_launch, Session, new_session,
  session_ready, turn_completed, process_exited, prompt, request_close, observe_event, fix_outcome,
  wait_result, exit_error, is_ready, is_processing, is_live,
}
use go_agent_wrapper.Lifecycle.Run.{
  step, Action, observes, requests_close, closes_client, commits, ends_launch, finishes,
  closes_events, run, prompts,
}
use go_agent_wrapper.Lifecycle.Run.Order.{IsOrdered, reachable-IsOrdered}
use go_agent_wrapper.Lifecycle.Run.Final.{
  IsFixed, IsShut, finished_is_final, closed_refuses_prompts,
}
use go_agent_wrapper.Lifecycle.Run.Ending.{Ends, finished_outcome, closed_after_exit}
use go_agent_wrapper.Lifecycle.Run.Launch.{uncommitted_refuses_prompts, turn_event_before_commit}
use go_agent_wrapper.Lifecycle.Manager.{
  ManagerAction, manager_step, new_manager, reserve, unregister, reserves, acts, unregisters,
  session_step, done_step, manager_run,
}
use go_agent_wrapper.Lifecycle.Manager.Registered.{registered-IsHeld}
use go_agent_wrapper.Lifecycle.Manager.Held.{IsHeld}
use go_agent_wrapper.Lifecycle.Manager.Slots.{reserve_round_trip}

abbrev keep : Bytes → Bytes
keep s = s

abbrev id : Bytes
id = bytes "s"

-- A launch, then a close from start to end.
abbrev closing_run : List Action
closing_run = commits ∷ ends_launch ∷ requests_close ∷ closes_client none ∷ finishes ∷ []

closing_run_finishes : (run keep closing_run (new_session id)).finished ≡ true
unfolding run step close_client request_close close_launch_done commit_launch fix_outcome
closing_run_finishes = refl

-- At a session that is closed before a turn's end is observed.
reachable-IsOrdered_example : IsOrdered (run keep closing_run (new_session id))
reachable-IsOrdered_example = reachable-IsOrdered keep closing_run id

-- At a closed session that a late turn event reaches.
finished_is_final_example :
    IsFixed
      (run keep closing_run (new_session id))
      (run keep (observes none (turn_completed []) ∷ []) (run keep closing_run (new_session id)))
finished_is_final_example =
    finished_is_final keep closing_run (observes none (turn_completed []) ∷ []) id
      closing_run_finishes

abbrev closing_session : Session
closing_session =
    run keep (observes none (turn_completed []) ∷ [])
      (request_close (run keep (commits ∷ prompts ∷ []) (new_session id)))

-- At a turn that ends after Close was called.
closed_refuses_prompts_example :
    IsShut closing_session × (prompt closing_session ≡ (false, closing_session))
closed_refuses_prompts_example =
    closed_refuses_prompts keep (commits ∷ prompts ∷ []) (observes none (turn_completed []) ∷ []) id

-- At a session that was closed.
finished_outcome_example :
    Ends
      (run keep closing_run (new_session id)).state
      (run keep closing_run (new_session id)).terminal_outcome
      (run keep closing_run (new_session id)).err
finished_outcome_example = finished_outcome keep closing_run id closing_run_finishes

-- At a new session whose process exits with an error and which is then closed.
closed_after_exit_example :
    ((fix_outcome (
        request_close (
          observe_event keep none
            (process_exited (bytes "killed"))
            (new_session id)))).terminal_outcome
      ≡ some ended)
    × (wait_result (
          fix_outcome (
            request_close
              (observe_event keep none (process_exited (bytes "killed")) (new_session id))))
        ≡ some (lifecycle (exit_error (bytes "killed"))))
closed_after_exit_example = closed_after_exit keep none (bytes "killed") (new_session id) refl refl

abbrev early_run : List Action
early_run = observes none session_ready ∷ prompts ∷ []

-- At a session.ready event and a prompt before the commit.
uncommitted_refuses_prompts_example :
    ((is_ready (run keep early_run (new_session id)).state
        || is_processing (run keep early_run (new_session id)).state)
      ≡ false)
    × (prompt (run keep early_run (new_session id)) ≡ (false, run keep early_run (new_session id)))
uncommitted_refuses_prompts_example =
    uncommitted_refuses_prompts keep early_run id (refl, (refl, tt))
      (unfold run step observe_event prompt in refl)

-- At a completed turn during the launch.
turn_event_before_commit_example :
    ((prompt (observe_event keep none (turn_completed []) (new_session id))).0 ≡ true)
    × (is_live (observe_event keep none (turn_completed []) (new_session id)) ≡ false)
turn_event_before_commit_example =
    turn_event_before_commit keep none [] (new_session id) refl refl refl

-- A launch whose session is closed to its end, and a further launch of the id.
abbrev again : List ManagerAction
again =
    reserves id
    ∷ acts 0 closes_events
    ∷ acts 0 ends_launch
    ∷ acts 0 requests_close
    ∷ acts 0 (closes_client none)
    ∷ acts 0 finishes
    ∷ unregisters 0
    ∷ acts 0 closes_events
    ∷ reserves id
    ∷ []

again_registered : lookup id (manager_run keep again new_manager).sessions ≡ some 1
unfolding manager_run manager_step lookup insert delete ◌==◌ reserve unregister session_step
    done_step holds step close_client request_close close_launch_done fix_outcome close_events
again_registered = refl

-- At that manager.
registered-IsHeld_example : IsHeld (manager_run keep again new_manager).store id 1
registered-IsHeld_example = registered-IsHeld keep again id 1 again_registered

abbrev document : Json
document = object (field (bytes "Api-Key") (text (bytes "k")) no_fields)

-- At a document with a secret.
redact_json_lem_example : IsClean (redact_json document) × Redacts document (redact_json document)
redact_json_lem_example = redact_json_lem document

nothing_registered : lookup id new_manager.sessions ≡ none
unfolding lookup
nothing_registered = refl

-- At a launch in an empty manager.
reserve_round_trip_example :
    (lookup id (unregister id 0 (reserve id new_manager).1).sessions
      ≡ lookup id new_manager.sessions)
    × (reserve id (reserve id new_manager).1
        ≡ (inl (duplicate_session id), (reserve id new_manager).1))
reserve_round_trip_example = reserve_round_trip id id new_manager refl nothing_registered

abbrev ready_session : Session
ready_session = run keep (commits ∷ []) (new_session id)

-- At a second prompt after the start of the turn.
one_turn_at_a_time_example :
    prompt (run keep (observes none turn_started ∷ []) (prompt ready_session).1)
    ≡ (false, run keep (observes none turn_started ∷ []) (prompt ready_session).1)
one_turn_at_a_time_example =
    one_turn_at_a_time keep ready_session (observes none turn_started ∷ [])
      (unfold run step commit_launch prompt in refl) (refl, tt)
