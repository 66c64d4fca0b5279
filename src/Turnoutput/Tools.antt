-- ===== src/Turnoutput/Tools.antt =====
-- turnoutput/signals.go: the tool calls of a turn, their results and their refusals.
use go_agent_wrapper.Shared.{
  ℕ, suc, ◌+◌, Bytes, ◌==◌, is_empty, Bool, Option, none, some, is_some, List, [], ◌∷◌, ◌++◌,
  length, get_elem?, set, drop, lookup, delete, insert, leb, if◌then◌else◌,
}
use go_agent_wrapper.Turnoutput.Turn.{Facts, no_facts, Tool, Turn, max_tools, max_early}

-- The newest call with the id.
unfoldable pub newest : Bytes → List Tool → Option ℕ
newest k [] = none
newest k (tl ∷ tls) = elim (newest k tls) [
  | some i ↦ some (suc i)
  | none ↦ if tl.id == k then some 0 else none
]

-- toolIndex; -1 of the source is none.
unfoldable pub tool_index : Bytes → Turn → Option ℕ
unfolding newest
tool_index k t = if is_empty k then none else newest k t.tools

unfoldable pub forget_early : Bytes → Turn → Turn
forget_early k t = record t { early = delete k t.early }

-- `t.tools[1:]` at the bound.
unfoldable pub make_room : List Tool → List Tool
make_room tools = if leb max_tools (length tools) then drop 1 tools else tools

abbrev pub new_tool : Bytes → Bool → Facts → Turn → Tool
new_tool k is_question f t = record {
  id = k;
  blocks_at = length t.blocks;
  seq = t.seq + 1;
  question = is_question;
  facts = f;
}

unfoldable pub record_tool : Bytes → Bool → Facts → Turn → Turn
unfolding make_room
record_tool k is_question f t = record t {
  seq = t.seq + 1;
  tools = make_room t.tools ++ new_tool k is_question f t ∷ [];
}

-- A result or a refusal that reached the reducer before the call.
unfoldable pub claim : Bytes → Turn → Option Facts
claim k t = if is_empty k then none else lookup k t.early

-- addTool; the index that the source returns is that of the last call.
unfoldable pub add_tool : Bytes → Bool → Turn → Turn
unfolding record_tool forget_early claim
add_tool k is_question t = elim (claim k t) [
  | none ↦ record_tool k is_question no_facts t
  | some f ↦ record_tool k is_question f (forget_early k t)
]

abbrev pub evict_oldest : List (Bytes × Facts) → Turn → Turn
unfolding forget_early
evict_oldest [] t = t
evict_oldest ((k, f) ∷ _) t = forget_early k t

-- The oldest entry goes where `early` is full.
unfoldable pub evict_early : Turn → Turn
unfolding forget_early
evict_early t = if leb max_early (length t.early) then evict_oldest t.early t else t

unfoldable pub update_tool : ℕ → (Facts → Facts) → Turn → Turn
update_tool i f t = elim (get_elem? t.tools i) [
  | none ↦ t
  | some tl ↦ record t { tools = set t.tools i (record tl { facts = f tl.facts }) }
]

unfoldable pub update_early : Bytes → (Facts → Facts) → Turn → Turn
unfolding evict_early
update_early k f t = elim (lookup k t.early) [
  | some g ↦ record t { early = insert k (f g) t.early }
  | none ↦ let u = evict_early t in record u { early = u.early ++ (k, f no_facts) ∷ [] }
]

-- factsFor and the write through the pointer that it returns: the facts of the call with the id,
-- or those kept for the call to claim.
unfoldable pub update_facts : Bytes → (Facts → Facts) → Turn → Turn
unfolding tool_index update_tool update_early
update_facts k f t = elim (tool_index k t) [
  | some i ↦ update_tool i f t
  | none ↦ update_early k f t
]

-- What factsFor returns, as a value.
unfoldable pub facts_of : Bytes → Turn → Facts
unfolding tool_index
facts_of k t = elim (tool_index k t) [
  | some i ↦ elim (get_elem? t.tools i) [ none ↦ no_facts | some tl ↦ tl.facts ]
  | none ↦ elim (lookup k t.early) [ none ↦ no_facts | some g ↦ g ]
]

-- toolResult: only the first result of a call is written. Where the source's factsFor makes an
-- entry, that entry has no result yet, so it is made exactly where the result is written.
unfoldable pub tool_result : Bytes → Bool → Turn → Turn
unfolding update_facts facts_of
tool_result k is_error t =
    if is_empty k
    then t
    else if is_some (facts_of k t).result
    then t
    else let u = record t { seq = t.seq + 1 } in
      update_facts k
        (λ f. record f { result = some (record { is_error = is_error; seq = t.seq + 1 }) }) u
