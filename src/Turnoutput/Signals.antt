-- ===== src/Turnoutput/Signals.antt =====
-- turnoutput/signals.go: the questions, refusals and permission requests of a turn, and whether the
-- turn ended on one of them.
pub mod Memory
pub mod Refusals
pub mod Working
pub mod Ending
use go_agent_wrapper.Turnoutput.Tools.{
  newest, tool_index, forget_early, make_room, new_tool, record_tool, claim, add_tool, evict_oldest,
  evict_early, update_tool, update_early, update_facts, facts_of, tool_result,
}
use go_agent_wrapper.Shared.{
  ℕ, suc, ◌+◌, Bytes, ◌==◌, is_empty, trim_space, Bool, true, false, not, ◌&&◌, ◌||◌, Option, none,
  some, is_some, List, [], ◌∷◌, ◌++◌, length, get_elem?, set, drop, keep_last, lookup, delete,
  insert, ltb, leb, if◌then◌else◌,
}
use go_agent_wrapper.Turnoutput.Output.{Kind, question, approval, Confidence, exact}
use go_agent_wrapper.Turnoutput.Turn.{
  Block, Facts, no_facts, Tool, Signal, PendingRequest, Turn, max_tools, max_signals, max_early,
  max_pending,
}
use go_agent_wrapper.Turnoutput.Blocks.{clip, pick}

unfoldable pub add_signal : Signal → Turn → Turn
unfolding keep_last
add_signal sig t = record t { signals = keep_last max_signals (t.signals ++ sig ∷ []) }

-- raiseQuestion: the call just recorded has the id `k`, so the signal is placed by it unless the
-- id is empty.
unfoldable pub raise_question : Bytes → Bytes → Turn → Turn
unfolding add_signal
raise_question text k t =
    add_signal
      (record {
        kind = question;
        text = clip text;
        by_tool = not (is_empty k);
        tool_id = k;
        tool_call = true;
        at = length t.blocks;
        seq = t.seq;
      })
      t

unfoldable pub raise_requested_question : Bytes → Turn → Turn
unfolding add_signal
raise_requested_question text t =
    add_signal
      (record {
        kind = question;
        text = clip text;
        by_tool = false;
        tool_id = [];
        tool_call = false;
        at = length t.blocks;
        seq = t.seq;
      })
      t

unfoldable pub refuse : Facts → Facts
refuse f = record f { refused = true }

abbrev pub approval_of : Bytes → Bytes → Signal
approval_of text k = record {
  kind = approval;
  text = clip text;
  by_tool = true;
  tool_id = k;
  tool_call = false;
  at = 0;
  seq = 0;
}

unfoldable pub raise_approval : Bytes → Bytes → Turn → Turn
unfolding add_signal update_facts refuse
raise_approval text k t =
    add_signal (approval_of text k) (if is_empty k then t else update_facts k refuse t)

-- A permission request sits where it arrived.
unfoldable pub request_signal : Bytes → Turn → Signal
request_signal text t = record {
  kind = approval;
  text = clip text;
  by_tool = false;
  tool_id = [];
  tool_call = false;
  at = length t.blocks;
  seq = t.seq;
}

unfoldable pub request : List Bytes → Bytes → Turn → Turn
unfolding request_signal keep_last
request ids text t = record t {
  pending =
      keep_last max_pending (t.pending ++ record { ids = ids; sig = request_signal text t } ∷ []);
}

-- overlaps, with its two loops.
unfoldable pub contains : List Bytes → Bytes → Bool
contains [] x = false
contains (y ∷ ys) x = x == y || contains ys x

unfoldable pub overlaps : List Bytes → List Bytes → Bool
unfolding contains
overlaps [] ys = false
overlaps (x ∷ xs) ys = (not (is_empty x) && contains ys x) || overlaps xs ys

-- The first pending request that any of the ids names, with the others.
unfoldable pub take_named :
    List Bytes → List PendingRequest → Option (PendingRequest × List PendingRequest)
unfolding overlaps
take_named ids [] = none
take_named ids (p ∷ ps) =
    let rest = take_named ids ps in
    if overlaps p.ids ids
    then some (p, ps)
    else elim rest [ none ↦ none | some (q, qs) ↦ some (q, p ∷ qs) ]

-- The request that a resolution settles: the one it names, else the oldest.
unfoldable pub take_request :
    List Bytes → List PendingRequest → Option (PendingRequest × List PendingRequest)
unfolding take_named
take_request ids ps = elim (take_named ids ps) [
  | some r ↦ some r
  | none ↦ elim ps [ [] ↦ none | p ∷ rest ↦ some (p, rest) ]
]

unfoldable pub resolve : List Bytes → Bool → Bytes → Turn → Turn
unfolding take_request request_signal add_signal
resolve ids allowed text t = elim (take_request ids t.pending) [
  | none ↦ if allowed then t else add_signal (request_signal text t) t
  | some (p, rest) ↦
      let u = record t { pending = rest } in if allowed then u else add_signal p.sig u
]

-- place: `after` counts one more than the source's, whose -1 is 0 here.
abbrev pub last_tool : List Tool → ℕ × ℕ
last_tool [] = (0, 1)
last_tool (tl ∷ []) = (tl.blocks_at, suc tl.seq)
last_tool (tl ∷ tl' ∷ tls) = last_tool (tl' ∷ tls)

unfoldable pub place : Signal → Turn → ℕ × ℕ
unfolding tool_index
place sig t =
    if not sig.by_tool
    then (sig.at, suc sig.seq)
    else if is_empty sig.tool_id
    then last_tool t.tools
    else elim (tool_index sig.tool_id t) [
      | none ↦ (0, 0)
      | some i ↦ elim (get_elem? t.tools i) [
        | none ↦ (0, 0)
        | some tl ↦ elim tl.facts.result [
          | none ↦ (tl.blocks_at, suc tl.seq)
          | some o ↦ (tl.blocks_at, suc o.seq)
        ]
      ]
    ]

-- `question` calls and refused calls are not work.
abbrev pub is_work : Tool → Bool
is_work tl = not tl.question && not tl.facts.refused

-- Some call that started after the point works past the signal; `after` as in `place`.
unfoldable pub worked_after : ℕ → List Tool → Bool
worked_after after [] = false
worked_after after (tl ∷ tls) = (ltb after (suc tl.seq) && is_work tl) || worked_after after tls

-- The question's own call came back with an answer.
unfoldable pub answered : Signal → Turn → Bool
unfolding tool_index
answered sig t = sig.tool_call && elim (tool_index sig.tool_id t) [
  | none ↦ false
  | some i ↦ elim (get_elem? t.tools i) [
    | none ↦ false
    | some tl ↦ elim tl.facts.result [ none ↦ false | some o ↦ not o.is_error ]
  ]
]

unfoldable pub is_open : Signal → Turn → Bool
unfolding place worked_after answered
is_open sig t = if answered sig t then false else not (worked_after (place sig t).1 t.tools)

abbrev pub is_question : Kind → Bool
is_question question = true
is_question _ = false

-- openSignal: the last open question and the last open approval so far.
unfoldable pub consider :
    Turn → Option Signal × Option Signal → Signal → Option Signal × Option Signal
consider t (q, a) sig =
    if not (is_open sig t)
    then (q, a)
    else if is_question sig.kind
    then (some sig, a)
    else (q, some sig)

unfoldable pub consider_signals :
    Turn → Option Signal × Option Signal → List Signal → Option Signal × Option Signal
unfolding consider
consider_signals t acc [] = acc
consider_signals t acc (s ∷ ss) = consider_signals t (consider t acc s) ss

unfoldable pub consider_pending :
    Turn → Option Signal × Option Signal → List PendingRequest → Option Signal × Option Signal
unfolding consider
consider_pending t acc [] = acc
consider_pending t acc (p ∷ ps) = consider_pending t (consider t acc p.sig) ps

abbrev pub prefer : Option Signal × Option Signal → Option Signal
prefer (some q, a) = some q
prefer (none, a) = a

unfoldable pub open_signal : Turn → Option Signal
unfolding consider_signals consider_pending is_open
open_signal t = prefer (consider_pending t (consider_signals t (none, none) t.signals) t.pending)

-- The loop of hasTextAfter.
unfoldable pub any_text : List Block → Bool
any_text [] = false
any_text (b ∷ bs) = not (is_empty (trim_space b.text)) || any_text bs

unfoldable pub has_text_after : ℕ → Turn → Bool
unfolding any_text
has_text_after from t = any_text (drop from t.blocks)

-- The text after the signal, if there is any.
unfoldable pub after_signal : ℕ → Bytes → Turn → Option (Bytes × Confidence)
unfolding has_text_after pick
after_signal at term_text t =
    if has_text_after at t
    then if is_empty (pick at term_text t).0 then none else some (pick at term_text t)
    else if not (is_empty (trim_space term_text)) && is_empty t.blocks
    then some (trim_space term_text, exact)
    else none

unfoldable pub signal_text : Signal → Bytes → Bytes × Confidence → Turn → Bytes × Confidence
unfolding place after_signal
signal_text sig term_text picked t = elim (after_signal (place sig t).0 term_text t) [
  | some r ↦ r
  | none ↦ if not (is_empty sig.text) then (sig.text, exact) else picked
]
