-- ===== src/Bridge/Frame/Glued.antt =====
-- acp/ndjsonclient.go: an answer to a server's request that was cut short.
use mathlib.Core.List.{append_assoc}
use go_agent_wrapper.Shared.{
  ℕ, ◌≡◌, Bytes, true, false, some, none, [], ◌∷◌, ◌++◌, take, length, arith,
}
use go_agent_wrapper.Bridge.Frame.{
  Wire, WriteError, Attempt, written, frames, answers, write, write_frame, write_with_deadline,
  step, run,
}
use go_agent_wrapper.Bridge.Frame.Framing.{reaches, reached_lem}
use go_agent_wrapper.Bridge.Frame.Contract.{take_all}

-- An answer that is cut short is glued to what follows: where the deadline ends the write of an
-- answer after k bytes, the transport stays open; and where the next call of WriteFrameCtx gets to its
-- write and the writer takes all of its frame, that call reports success, and the wire has the k bytes
-- with the frame right behind them.
pub cut_answer_is_glued :
    (answer : Bytes) (k : ℕ) (e : WriteError) (a : Attempt) (w : Wire)
    → w.closed ≡ false
    → reaches a ≡ true
    → a.error ≡ none
    → a.accepted ≡ length a.frame
    → ((step (answers answer k (some e)) w).closed ≡ false)
      × ((write_frame a (step (answers answer k (some e)) w)).0 ≡ written)
      × ((run (answers answer k (some e) ∷ frames a ∷ []) w).sent
          ≡ w.sent ++ (take k answer ++ a.frame))
unfolding run step write_with_deadline
cut_answer_is_glued answer k e a w still_open reached fine all =
    let d = step (answers answer k (some e)) w in
    let is = reached_lem a d reached in
    let full : take a.accepted a.frame ≡ a.frame = take_all a.accepted a.frame all in
    (
      still_open,
      ground (arith, is, fine),
      unfold write in ground (arith, is, fine, full, append_assoc w.sent (take k answer) a.frame),
    )
