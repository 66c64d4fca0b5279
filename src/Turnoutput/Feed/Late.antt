-- ===== src/Turnoutput/Feed/Late.antt =====
-- turnoutput/feed.go: events for turns that were reported before.
use go_agent_wrapper.Turnoutput.Signals.{contains}
use go_agent_wrapper.Turnoutput.Turn.{new_turn, Turn}
use go_agent_wrapper.Turnoutput.Reducer.Reports.{finish_reports, report-turn_id, end_turn-late}
use go_agent_wrapper.Shared.{
  ℕ, Bytes, is_empty, ◌≡◌, refl, ap, ◌∙◌, true, false, none, some, List, [], ◌∷◌, lookup, keep_last,
}
use go_agent_wrapper.Turnoutput.Output.{Output}
use go_agent_wrapper.Turnoutput.Reducer.{
  was_finished, in_body, finished_memory, Config, Reducer, new, body,
}
use go_agent_wrapper.Turnoutput.Closing.{ending, end_turn}
use go_agent_wrapper.Turnoutput.Report.{report, Terminal, StopReasons}
use go_agent_wrapper.Turnoutput.Feed.Kept.{Input, feed_all}
use go_agent_wrapper.Turnoutput.Feed.History.{reported, finished_is_history}

body-late :
    (c : ℕ) (id : Bytes) (r : Reducer)
    → lookup (c ∷ id) r.open_turns ≡ none
    → was_finished (c ∷ id) r ≡ true
    → body (c ∷ id) r ≡ (none, r)
unfolding body
body-late c id r closed late = rw (closed, body) (rw late refl)

in_body-late :
    (c : ℕ) (id : Bytes) (f : Turn → Turn) (r : Reducer)
    → body (c ∷ id) r ≡ (none, r)
    → in_body (c ∷ id) f r ≡ r
unfolding in_body
in_body-late c id f r e = rw (e, in_body) (ap (λ p. p.1) e)

-- Events for a reported turn come to nothing while the turn is remembered: in every reducer that
-- calls of the feeds and of Flush lead to from New, where an id is not empty, not open, and among
-- the turn ids of the last finishedMemory Outputs, an event in the body of that turn changes
-- nothing, and a terminal event for it reports nothing and changes nothing.
pub late_is_dropped :
    (reasons : StopReasons) (cfg : Config) (is : List Input) (id : Bytes) (f : Turn → Turn)
    (term : Terminal)
    → is_empty id ≡ false
    → lookup id (feed_all reasons is (new cfg)).open_turns ≡ none
    → contains (keep_last finished_memory (reported reasons is (new cfg))) id ≡ true
    → (in_body id f (feed_all reasons is (new cfg)) ≡ feed_all reasons is (new cfg))
      × (end_turn reasons id term (feed_all reasons is (new cfg))
          ≡ (none, feed_all reasons is (new cfg)))
late_is_dropped reasons cfg is [] f term named closed recent = cc
late_is_dropped reasons cfg is (c ∷ id) f term named closed recent =
    let r = feed_all reasons is (new cfg) in
    let late : was_finished (c ∷ id) r ≡ true =
      unfold was_finished in rw (finished_is_history reasons cfg is) recent in
    (
      in_body-late c id f r (body-late c id r closed late),
      end_turn-late reasons c id term r closed late,
    )

end_turn-fresh :
    (reasons : StopReasons) (c : ℕ) (id : Bytes) (term : Terminal) (r : Reducer)
    → lookup (c ∷ id) r.open_turns ≡ none
    → was_finished (c ∷ id) r ≡ false
    → (out : Output) × ((end_turn reasons (c ∷ id) term r).0 ≡ some out) × (out.turn_id ≡ c ∷ id)
end_turn-fresh reasons c id term r closed early =
    let opens : (ending reasons (c ∷ id) term r).0 ≡ some (new_turn (c ∷ id)) =
      unfold ending in rw (closed, ending) (rw early refl) in
    (
      report reasons (ending reasons (c ∷ id) term r).1 (new_turn (c ∷ id)) term,
      finish_reports reasons (c ∷ id) term r (new_turn (c ∷ id)) opens,
      report-turn_id reasons (ending reasons (c ∷ id) term r).1 (new_turn (c ∷ id)) term
          ∙ (unfold new_turn in refl),
    )

-- The memory is bounded: a terminal event for a turn id that is not open and not among the turn ids
-- of the last finishedMemory Outputs is reported with that id, even where an earlier Output had it.
pub forgotten_is_reported :
    (reasons : StopReasons) (cfg : Config) (is : List Input) (id : Bytes) (term : Terminal)
    → is_empty id ≡ false
    → lookup id (feed_all reasons is (new cfg)).open_turns ≡ none
    → contains (keep_last finished_memory (reported reasons is (new cfg))) id ≡ false
    → (out : Output) × ((end_turn reasons id term (feed_all reasons is (new cfg))).0 ≡ some out)
      × (out.turn_id ≡ id)
forgotten_is_reported reasons cfg is [] term named closed gone = cc
forgotten_is_reported reasons cfg is (c ∷ id) term named closed gone =
    let r = feed_all reasons is (new cfg) in
    let early : was_finished (c ∷ id) r ≡ false =
      unfold was_finished in rw (finished_is_history reasons cfg is) gone in
    end_turn-fresh reasons c id term r closed early
