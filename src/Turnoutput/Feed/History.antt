-- ===== src/Turnoutput/Feed/History.antt =====
-- turnoutput/feed.go: the ids of the finished turns as a history of the reports.
use mathlib.Core.List.{append-nil, append_assoc}
use go_agent_wrapper.Shared.{
  keep_last-append, keep_last_idem, Bytes, is_empty, ◌≡◌, refl, ap, sym, ◌∙◌, true, false, none,
  some, List, [], ◌∷◌, ◌++◌, lookup, keep_last, Option-cases, Bool-cases, inl, inr,
}
use go_agent_wrapper.Turnoutput.Reducer.{finished_memory, Config, Reducer, new, current}
use go_agent_wrapper.Turnoutput.Report.{StopReasons}
use go_agent_wrapper.Turnoutput.Reducer.Finished.{
  noted, Notes, finish-Notes, body-finished, in_body-finished, note_stop-finished, end_turn-Notes,
  flush-Notes,
}
use go_agent_wrapper.Turnoutput.Feed.Payload.{
  EventKind, turn_started, agent_delta, tool_use_event, tool_result_event, subagent_spawn,
  permission_requested, permission_resolved, permission_denied, turn_completed, turn_failed,
  process_exited, other, Event, ProviderEvent, StreamEvent,
}
use go_agent_wrapper.Turnoutput.Feed.{
  terminal_of, identify, exit_terminal, error_text, done_terminal, error_terminal, on_exit,
  dispatch, observe, observe_provider, observe_stream,
}
use go_agent_wrapper.Turnoutput.Feed.Kept.{
  Input, envelope, provider_event, stream_event, flushed, feed, feed_all,
}

module _ (reasons : StopReasons) where
  on_exit-Notes : (error : Bytes) (r : Reducer) → Notes (on_exit reasons error r) r
  unfolding on_exit
  on_exit-Notes error r = elim (Option-cases (current r)) [
    | inl e ↦ rw (e, on_exit) refl
    | inr (k, e) ↦ elim (Option-cases (lookup k r.open_turns)) [
      | inl f ↦ rw (e, on_exit) (rw (f, on_exit) refl)
      | inr (t, f) ↦
          rw (e, on_exit) (rw (f, on_exit) (finish-Notes reasons t (exit_terminal error) r))
    ]
  ]

  dispatch-Notes : (k : EventKind) (ev : Event) (r : Reducer) → Notes (dispatch reasons k ev r) r
  unfolding dispatch
  dispatch-Notes turn_started ev r = elim (Bool-cases (is_empty ev.turn_id)) [
    | inl e ↦ rw e refl
    | inr e ↦ rw e (body-finished ev.turn_id r)
  ]
  dispatch-Notes (agent_delta p) ev r = in_body-finished ev.turn_id _ r
  dispatch-Notes (tool_use_event p) ev r = in_body-finished ev.turn_id _ r
  dispatch-Notes (tool_result_event p) ev r = in_body-finished ev.turn_id _ r
  dispatch-Notes subagent_spawn ev r = in_body-finished ev.turn_id _ r
  dispatch-Notes (permission_requested p) ev r = in_body-finished ev.turn_id _ r
  dispatch-Notes (permission_resolved p) ev r = in_body-finished ev.turn_id _ r
  dispatch-Notes (permission_denied p) ev r = in_body-finished ev.turn_id _ r
  dispatch-Notes (turn_completed p) ev r = end_turn-Notes reasons ev.turn_id (terminal_of false p) r
  dispatch-Notes (turn_failed p) ev r = end_turn-Notes reasons ev.turn_id (terminal_of true p) r
  dispatch-Notes (process_exited error) ev r = on_exit-Notes error r
  dispatch-Notes other ev r = refl

  observe-Notes : (ev : Event) (r : Reducer) → Notes (observe reasons ev r) r
  unfolding observe
  observe-Notes ev r = dispatch-Notes ev.kind ev (identify ev r)

  observe_provider-Notes :
      (ev : ProviderEvent) (r : Reducer) → Notes (observe_provider reasons ev r) r
  unfolding observe_provider
  observe_provider-Notes (ProviderEvent.delta text k phase) r = in_body-finished [] _ r
  observe_provider-Notes ProviderEvent.thinking r = in_body-finished [] _ r
  observe_provider-Notes (ProviderEvent.tool_use id name input) r = in_body-finished [] _ r
  observe_provider-Notes (ProviderEvent.tool_result id e) r = in_body-finished [] _ r
  observe_provider-Notes ProviderEvent.subagent_spawn r = in_body-finished [] _ r
  observe_provider-Notes (ProviderEvent.usage stop) r = note_stop-finished stop r
  observe_provider-Notes (ProviderEvent.permission_denied a d k) r = in_body-finished [] _ r
  observe_provider-Notes (ProviderEvent.done stop text) r =
      end_turn-Notes reasons [] (done_terminal stop text) r
  observe_provider-Notes (ProviderEvent.error message err) r =
      end_turn-Notes reasons [] (error_terminal (error_text message err)) r

  observe_stream-Notes :
      (normalize : Bytes → Bytes) (ev : StreamEvent) (r : Reducer)
      → Notes (observe_stream reasons normalize ev r) r
  unfolding observe_stream
  observe_stream-Notes normalize (StreamEvent.delta text k phase) r = in_body-finished [] _ r
  observe_stream-Notes normalize StreamEvent.thinking r = in_body-finished [] _ r
  observe_stream-Notes normalize (StreamEvent.tool_use none) r = in_body-finished [] _ r
  observe_stream-Notes normalize (StreamEvent.tool_use (some (id, name, input))) r =
      in_body-finished [] _ r
  observe_stream-Notes normalize (StreamEvent.usage none) r = refl
  observe_stream-Notes normalize (StreamEvent.usage (some [])) r = refl
  observe_stream-Notes normalize (StreamEvent.usage (some (c ∷ stop))) r =
      note_stop-finished (normalize (c ∷ stop)) r
  observe_stream-Notes normalize (StreamEvent.done content) r =
      end_turn-Notes reasons [] (done_terminal [] content) r
  observe_stream-Notes normalize (StreamEvent.error error) r =
      end_turn-Notes reasons [] (error_terminal error) r
  observe_stream-Notes normalize StreamEvent.other r = refl

  feed-Notes : (i : Input) (r : Reducer) → Notes (feed reasons i r) r
  unfolding feed
  feed-Notes (envelope ev) r = observe-Notes ev r
  feed-Notes (provider_event ev) r = observe_provider-Notes ev r
  feed-Notes (stream_event normalize ev) r = observe_stream-Notes normalize ev r
  feed-Notes (flushed reason) r = flush-Notes reasons reason r

-- The turn ids of the Outputs that a sequence of calls reports, in order.
abbrev pub reported : StopReasons → List Input → Reducer → List Bytes
reported reasons [] r = []
reported reasons (i ∷ is) r = elim (feed reasons i r).0 [
  | none ↦ reported reasons is (feed reasons i r).1
  | some out ↦ out.turn_id ∷ reported reasons is (feed reasons i r).1
]

feed_all-history :
    (reasons : StopReasons) (is : List Input) (r : Reducer)
    → keep_last finished_memory r.finished ≡ r.finished
    → (feed_all reasons is r).finished
      ≡ keep_last finished_memory (r.finished ++ reported reasons is r)
unfolding feed_all
feed_all-history reasons [] r short =
    sym (ap (keep_last finished_memory) (append-nil r.finished) ∙ short)
feed_all-history reasons (i ∷ is) r short = elim (Option-cases (feed reasons i r).0) [
  | inl e ↦
      let after : (feed reasons i r).1.finished ≡ r.finished =
        feed-Notes reasons i r ∙ ap (λ o. noted o r.finished) e in
      rw (e, reported)
        (feed_all-history reasons is (feed reasons i r).1 (rw after short)
          ∙ ap (λ f. keep_last finished_memory (f ++ reported reasons is (feed reasons i r).1))
              after)
  | inr (out, e) ↦
      let ids = r.finished ++ out.turn_id ∷ [] in
      let rest = reported reasons is (feed reasons i r).1 in
      let after : (feed reasons i r).1.finished ≡ keep_last finished_memory ids =
        feed-Notes reasons i r ∙ ap (λ o. noted o r.finished) e in
      rw (e, reported)
        (feed_all-history reasons is (feed reasons i r).1
            (rw after (keep_last_idem finished_memory ids))
          ∙ (ap (λ f. keep_last finished_memory (f ++ rest)) after
              ∙ (keep_last-append finished_memory ids rest
                  ∙ ap (keep_last finished_memory)
                      (append_assoc r.finished (out.turn_id ∷ []) rest))))
]

-- From New, for every configuration and after every sequence of calls of Observe, ObserveProvider,
-- ObserveStream and Flush, in any mixture, the finished ids that the reducer holds are exactly the
-- turn ids of the last finishedMemory Outputs that it reported, in the order of the reports.
pub finished_is_history :
    (reasons : StopReasons) (cfg : Config) (is : List Input)
    → (feed_all reasons is (new cfg)).finished
      ≡ keep_last finished_memory (reported reasons is (new cfg))
finished_is_history reasons cfg is =
    unfold new keep_last in feed_all-history reasons is (new cfg) refl
