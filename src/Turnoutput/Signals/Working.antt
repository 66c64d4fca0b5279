-- ===== src/Turnoutput/Signals/Working.antt =====
-- turnoutput/signals.go: the agent's work after a signal, and answers to its questions.
use go_agent_wrapper.Shared.{
  ℕ, zero, suc, ◌+◌, ◌≤◌, Bytes, is_empty, ◌≡◌, refl, ap, ◌∙◌, Bool, true, false, not, ◌||◌, Option,
  none, some, is_some, List, [], ◌∷◌, ◌++◌, get_elem?, set, Option-cases, inl, inr, if◌then◌else◌,
  arith,
}
use go_agent_wrapper.Turnoutput.Turn.{Facts, no_facts, Tool, Signal, Turn}
use go_agent_wrapper.Turnoutput.Signals.{place, worked_after, answered, is_open}
use go_agent_wrapper.Turnoutput.Tools.{
  newest, tool_index, make_room, new_tool, claim, add_tool, update_tool, update_facts, facts_of,
  tool_result,
}

worked_after-append :
    (after : ℕ) (xs ys : List Tool)
    → worked_after after (xs ++ ys) ≡ (worked_after after xs || worked_after after ys)
unfolding worked_after
worked_after-append after [] ys = refl
worked_after-append after (x ∷ xs) ys = ground (arith, worked_after-append after xs ys)

-- Forgetting the oldest call brings no work.
worked_after-make_room :
    (after : ℕ) (xs : List Tool)
    → worked_after after xs ≡ false
    → worked_after after (make_room xs) ≡ false
unfolding worked_after make_room
worked_after-make_room after [] h = ground arith
worked_after-make_room after (x ∷ xs) h = ground arith

-- A signal that sits where it arrived.
abbrev pub IsPlaced : Signal → Turn → Type 0
IsPlaced sig t = (sig.by_tool ≡ false) × (sig.seq ≤ t.seq)

abbrev pub claimed_refusal : Option Facts → Bool
claimed_refusal none = false
claimed_refusal (some f) = f.refused

place-IsPlaced :
    (sig : Signal) (t : Turn) → sig.by_tool ≡ false → place sig t ≡ (sig.at, suc sig.seq)
unfolding place
place-IsPlaced sig t h = rw h

tools-add_tool :
    (k : Bytes) (q : Bool) (t : Turn)
    → (f : Facts) × ((add_tool k q t).tools ≡ make_room t.tools ++ new_tool k q f t ∷ [])
      × (f.refused ≡ claimed_refusal (claim k t))
unfolding add_tool
tools-add_tool k q t = elim (Option-cases (claim k t)) [
  | inl e ↦ (no_facts, rw (e, add_tool), rw e)
  | inr (f, e) ↦ (f, rw (e, add_tool), rw e)
]

works :
    (sig : Signal) (t : Turn) (f : Facts) (k : Bytes)
    → sig.seq ≤ t.seq
    → f.refused ≡ false
    → worked_after (suc sig.seq) (new_tool k false f t ∷ []) ≡ true
unfolding worked_after
works sig t f k h r = ground arith

-- A call that asks no question and was not refused before it arrived closes every signal that sits
-- where it arrived: the agent worked past it.
is_open-add_tool_work :
    (sig : Signal) (k : Bytes) (t : Turn)
    → IsPlaced sig t
    → claimed_refusal (claim k t) ≡ false
    → is_open sig (add_tool k false t) ≡ false
unfolding is_open
is_open-add_tool_work sig k t (placed, before) accepted =
    let (f, tools, r) = tools-add_tool k false t in
    let whole = worked_after-append (suc sig.seq) (make_room t.tools) (new_tool k false f t ∷ []) in
    let last = works sig t f k before (r ∙ accepted) in
    let worked : worked_after (place sig (add_tool k false t)).1 (add_tool k false t).tools ≡ true =
      rw (place-IsPlaced sig (add_tool k false t) placed, tools)
        (rw (whole, last) (ground arith)) in
    ground (arith, worked)

is_open_plain :
    (sig : Signal) (t : Turn)
    → sig.by_tool ≡ false
    → sig.tool_call ≡ false
    → is_open sig t ≡ not (worked_after (suc sig.seq) t.tools)
unfolding is_open
is_open_plain sig t placed plain = rw plain (rw (place-IsPlaced sig t placed))

asking_works_not :
    (after : ℕ) (t : Turn) (f : Facts) (k : Bytes)
    → worked_after after (new_tool k true f t ∷ []) ≡ false
unfolding worked_after
asking_works_not after t f k = ground arith

-- A call to a question tool closes no request or requested question that sits where it arrived and
-- is open: asking is not working.
is_open-add_tool_question :
    (sig : Signal) (k : Bytes) (t : Turn)
    → IsPlaced sig t
    → sig.tool_call ≡ false
    → is_open sig t ≡ true
    → is_open sig (add_tool k true t) ≡ true
is_open-add_tool_question sig k t (placed, before) plain still =
    let (f, tools, r) = tools-add_tool k true t in
    let whole = worked_after-append (suc sig.seq) (make_room t.tools) (new_tool k true f t ∷ []) in
    let idle : worked_after (suc sig.seq) t.tools ≡ false =
      ground (arith, is_open_plain sig t placed plain, still) in
    let kept = worked_after-make_room (suc sig.seq) t.tools idle in
    is_open_plain sig (add_tool k true t) placed plain
    ∙ (rw tools (rw (whole, kept, asking_works_not (suc sig.seq) t f k)))

get_elem?-set {ℓ} :
    {A : Type ℓ} (xs : List A) (i : ℕ) (x v : A)
    → get_elem? xs i ≡ some x
    → get_elem? (set xs i v) i ≡ some v
get_elem?-set [] i x v h = cc
get_elem?-set (y ∷ xs) zero x v h = refl
get_elem?-set (y ∷ xs) (suc i) x v h = get_elem?-set xs i x v h

newest-set :
    (k : Bytes) (xs : List Tool) (i : ℕ) (x : Tool) (f : Facts)
    → get_elem? xs i ≡ some x
    → newest k (set xs i (record x { facts = f })) ≡ newest k xs
unfolding newest
newest-set k [] i x f h = refl
newest-set k (y ∷ xs) zero x f h = ground arith
newest-set k (y ∷ xs) (suc i) x f h = rw (newest-set k xs i x f h)

abbrev note_result : Bool → ℕ → Facts → Facts
note_result is_error n f = record f { result = some (record { is_error = is_error; seq = n }) }

abbrev with_result : Tool → Bool → ℕ → Tool
with_result tl is_error n = record tl { facts = note_result is_error n tl.facts }

facts_of-at :
    (k : Bytes) (t : Turn) (i : ℕ) (tl : Tool)
    → tool_index k t ≡ some i
    → get_elem? t.tools i ≡ some tl
    → facts_of k t ≡ tl.facts
unfolding facts_of
facts_of-at k t i tl at call = rw (at, facts_of) (rw (call, facts_of))

update_facts-at :
    (k : Bytes) (g : Facts → Facts) (t : Turn) (i : ℕ) (tl : Tool)
    → tool_index k t ≡ some i
    → get_elem? t.tools i ≡ some tl
    → update_facts k g t ≡ record t { tools = set t.tools i (record tl { facts = g tl.facts }) }
unfolding update_facts update_tool
update_facts-at k g t i tl at call = rw (at, update_facts) (rw (call, update_tool))

tool_index-set :
    (k : Bytes) (t : Turn) (i : ℕ) (tl : Tool) (is_error : Bool)
    → get_elem? t.tools i ≡ some tl
    → tool_index k
        (record t { seq = t.seq + 1; tools = set t.tools i (with_result tl is_error (t.seq + 1)) })
      ≡ tool_index k t
unfolding tool_index
tool_index-set k t i tl is_error call =
    ap (λ r. if is_empty k then none else r)
      (newest-set k t.tools i tl (note_result is_error (t.seq + 1) tl.facts) call)

tool_index-seq :
    (k : Bytes) (t : Turn) (n : ℕ) → tool_index k (record t { seq = n }) ≡ tool_index k t
unfolding tool_index
tool_index-seq k t n = refl

-- The result of a call that the turn has, and that has no result yet.
tool_result-at :
    (k : Bytes) (is_error : Bool) (t : Turn) (i : ℕ) (tl : Tool)
    → is_empty k ≡ false
    → tool_index k t ≡ some i
    → get_elem? t.tools i ≡ some tl
    → tl.facts.result ≡ none
    → tool_result k is_error t
      ≡ record t { seq = t.seq + 1; tools = set t.tools i (with_result tl is_error (t.seq + 1)) }
unfolding tool_result
tool_result-at k is_error t i tl named at call waiting =
    let first : is_some (facts_of k t).result ≡ false =
      rw (facts_of-at k t i tl at call) (rw waiting) in
    let u = record t { seq = t.seq + 1 } in
    rw (named, first)
      (update_facts-at k (note_result is_error (t.seq + 1)) u i tl
        (tool_index-seq k t (t.seq + 1) ∙ at) call)

answered-at :
    (sig : Signal) (t : Turn) (i : ℕ) (tl : Tool)
    → sig.tool_call ≡ true
    → tool_index sig.tool_id t ≡ some i
    → get_elem? t.tools i ≡ some (with_result tl false t.seq)
    → answered sig t ≡ true
unfolding answered
answered-at sig t i tl asked at call = rw (asked, at) (rw call)

answered-closed : (sig : Signal) (t : Turn) → answered sig t ≡ true → is_open sig t ≡ false
unfolding is_open
answered-closed sig t h = rw h

-- A question whose own tool call came back with a result that is no error is no longer waiting:
-- where the turn's newest call with the question's id had no result yet, that result closes the
-- question, whatever else the turn holds.
is_open-tool_result_answer :
    (sig : Signal) (t : Turn) (i : ℕ) (tl : Tool)
    → is_empty sig.tool_id ≡ false
    → sig.tool_call ≡ true
    → tool_index sig.tool_id t ≡ some i
    → get_elem? t.tools i ≡ some tl
    → tl.facts.result ≡ none
    → is_open sig (tool_result sig.tool_id false t) ≡ false
is_open-tool_result_answer sig t i tl named asked at call waiting =
    let tl' = with_result tl false (t.seq + 1) in
    let u = record t { seq = t.seq + 1; tools = set t.tools i tl' } in
    let same = tool_index-set sig.tool_id t i tl false call in
    let done : answered sig u ≡ true =
      answered-at sig u i tl asked (same ∙ at) (get_elem?-set t.tools i tl tl' call) in
    rw (tool_result-at sig.tool_id false t i tl named at call waiting) (answered-closed sig u done)
