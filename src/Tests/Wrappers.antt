-- ===== src/Tests/Wrappers.antt =====
-- wrapper/typed_order.go at concrete inputs.
use go_agent_wrapper.Shared.{ℕ, ◌+◌, ◌≡◌, false, List, [], ◌∷◌, ◌++◌, length}
use go_agent_wrapper.Wrapper.Queue.{
  Action, empty_queue, appends, sends_marker, sends_stream, translates, run,
}
use go_agent_wrapper.Wrapper.Queue.Order.{markers, typed, queued, queue_in_order}

-- Two calls of enqueue whose steps overlap, around a stream event.
abbrev overlap : List (Action ℕ ℕ)
overlap =
    appends 1
    ∷ sends_stream false 7
    ∷ appends 2
    ∷ sends_marker
    ∷ sends_marker
    ∷ translates
    ∷ translates
    ∷ []

-- At two overlapping calls of enqueue.
queue_in_order_example :
    (typed (run overlap empty_queue).emitted ++ (run overlap empty_queue).items
      ≡ queued overlap empty_queue)
    × (markers (run overlap empty_queue).fanout + (run overlap empty_queue).sending
        ≡ length (run overlap empty_queue).items)
queue_in_order_example = queue_in_order overlap
