-- ===== src/Turnoutput/Signals/Refusals.antt =====
-- turnoutput/signals.go: a refusal that reaches the reducer before the call that it names.
use mathlib.Core.Path.{◌≡⟨◌⟩◌, ◌∎}
use go_agent_wrapper.Shared.{
  ℕ, ◌<◌, Bytes, ==-refl, is_empty, ◌≡◌, refl, ap, sym, ◌∙◌, Bool, false, none, some, List, [], ◌∷◌,
  ◌++◌, length, get_elem?, set, lookup, delete, leb, arith,
}
use go_agent_wrapper.Turnoutput.Turn.{Facts, no_facts, Signal, Tool, Turn, max_early}
use go_agent_wrapper.Turnoutput.Signals.{add_signal, refuse, approval_of, raise_approval}
use go_agent_wrapper.Turnoutput.Tools.{
  newest, tool_index, make_room, new_tool, record_tool, forget_early, claim, add_tool, evict_early,
  update_tool, update_early, update_facts,
}

newest-append :
    (k : Bytes) (xs : List Tool) (tl : Tool)
    → tl.id ≡ k
    → newest k (xs ++ tl ∷ []) ≡ some (length xs)
unfolding newest
newest-append k [] tl h = rw (h, ==-refl)
newest-append k (x ∷ xs) tl h = rw (newest-append k xs tl h)

get_elem?-append {ℓ} :
    {A : Type ℓ} (xs : List A) (x : A) → get_elem? (xs ++ x ∷ []) (length xs) ≡ some x
get_elem?-append [] x = refl
get_elem?-append (y ∷ xs) x = get_elem?-append xs x

set-append {ℓ} :
    {A : Type ℓ} (xs : List A) (x v : A) → set (xs ++ x ∷ []) (length xs) v ≡ xs ++ v ∷ []
set-append [] x v = refl
set-append (y ∷ xs) x v = ap (λ l. y ∷ l) (set-append xs x v)

lookup-append :
    (k : Bytes) (m : List (Bytes × Facts)) (f : Facts)
    → lookup k m ≡ none
    → lookup k (m ++ (k, f) ∷ []) ≡ some f
unfolding lookup
lookup-append k [] f h = rw ==-refl
lookup-append k ((j, v) ∷ m) f h = ground (arith, lookup-append k m f)

delete-append :
    (k : Bytes) (m : List (Bytes × Facts)) (f : Facts)
    → lookup k m ≡ none
    → delete k (m ++ (k, f) ∷ []) ≡ m
unfolding lookup delete
delete-append k [] f h = rw ==-refl
delete-append k ((j, v) ∷ m) f h = ground (arith, delete-append k m f)

tool_index-record_tool :
    (c : ℕ) (k : Bytes) (q : Bool) (f : Facts) (t : Turn)
    → tool_index (c ∷ k) (record_tool (c ∷ k) q f t) ≡ some (length (make_room t.tools))
unfolding tool_index record_tool
tool_index-record_tool c k q f t =
    newest-append (c ∷ k) (make_room t.tools) (new_tool (c ∷ k) q f t) refl

update_tool-record_tool :
    (k : Bytes) (q : Bool) (f : Facts) (g : Facts → Facts) (t : Turn)
    → update_tool (length (make_room t.tools)) g (record_tool k q f t) ≡ record_tool k q (g f) t
unfolding update_tool record_tool
update_tool-record_tool k q f g t =
    let xs = make_room t.tools in
    let tl = new_tool k q f t in
    rw (get_elem?-append xs tl, update_tool) (rw (set-append xs tl (new_tool k q (g f) t)))

update_facts-record_tool :
    (c : ℕ) (k : Bytes) (q : Bool) (f : Facts) (g : Facts → Facts) (t : Turn)
    → update_facts (c ∷ k) g (record_tool (c ∷ k) q f t) ≡ record_tool (c ∷ k) q (g f) t
unfolding update_facts
update_facts-record_tool c k q f g t =
    rw (tool_index-record_tool c k q f t, update_facts) (update_tool-record_tool (c ∷ k) q f g t)

update_facts-early :
    (k : Bytes) (g : Facts → Facts) (t : Turn)
    → tool_index k t ≡ none
    → lookup k t.early ≡ none
    → length t.early < max_early
    → update_facts k g t ≡ record t { early = t.early ++ (k, g no_facts) ∷ [] }
unfolding update_facts update_early evict_early
update_facts-early k g t no_call unknown room =
    let kept : leb max_early (length t.early) ≡ false = ground arith in
    rw (no_call, update_facts) (rw (unknown, update_early) (rw (kept, evict_early)))

add_tool-claim :
    (k : Bytes) (q : Bool) (f : Facts) (t : Turn)
    → claim k t ≡ some f
    → add_tool k q t ≡ record_tool k q f (forget_early k t)
unfolding add_tool
add_tool-claim k q f t e = rw (e, add_tool)

add_tool-fresh :
    (k : Bytes) (q : Bool) (t : Turn)
    → claim k t ≡ none
    → add_tool k q t ≡ record_tool k q no_facts t
unfolding add_tool
add_tool-fresh k q t e = rw (e, add_tool)

forget_early-append :
    (k : Bytes) (q : Bool) (f : Facts) (sig : Signal) (t : Turn)
    → lookup k t.early ≡ none
    → record_tool k q f
        (forget_early k (add_signal sig (record t { early = t.early ++ (k, f) ∷ [] })))
      ≡ add_signal sig (record_tool k q f t)
unfolding record_tool forget_early add_signal
forget_early-append k q f sig t unknown = rw (delete-append k t.early f unknown)

raise_approval-named :
    (text : Bytes) (c : ℕ) (k : Bytes) (t : Turn)
    → raise_approval text (c ∷ k) t
      ≡ add_signal (approval_of text (c ∷ k)) (update_facts (c ∷ k) refuse t)
unfolding raise_approval
raise_approval-named text c k t = refl

claim-named : (c : ℕ) (k : Bytes) (t : Turn) → claim (c ∷ k) t ≡ lookup (c ∷ k) t.early
unfolding claim
claim-named c k t = refl

claim-noted :
    (c : ℕ) (k : Bytes) (sig : Signal) (t : Turn)
    → claim (c ∷ k) (add_signal sig (record t { early = t.early ++ (c ∷ k, refuse no_facts) ∷ [] }))
      ≡ lookup (c ∷ k) (t.early ++ (c ∷ k, refuse no_facts) ∷ [])
unfolding claim add_signal
claim-noted c k sig t = refl

-- A refusal and the call that it names give the same turn in either order: where the id is not
-- empty, the turn has no call and no facts with the id yet, and fewer than maxEarly facts wait for
-- their calls.
pub raise_approval-add_tool :
    (text k : Bytes) (q : Bool) (t : Turn)
    → is_empty k ≡ false
    → tool_index k t ≡ none
    → lookup k t.early ≡ none
    → length t.early < max_early
    → raise_approval text k (add_tool k q t) ≡ add_tool k q (raise_approval text k t)
raise_approval-add_tool text [] q t named no_call unknown room = cc
raise_approval-add_tool text (c ∷ k) q t named no_call unknown room =
    let sig = approval_of text (c ∷ k) in
    let noted = record t { early = t.early ++ (c ∷ k, refuse no_facts) ∷ [] } in
    let fresh = add_tool-fresh (c ∷ k) q t (claim-named c k t ∙ unknown) in
    let waiting = claim-noted c k sig t ∙ lookup-append (c ∷ k) t.early (refuse no_facts) unknown in
    raise_approval text (c ∷ k) (add_tool (c ∷ k) q t)
    ≡⟨ ap (raise_approval text (c ∷ k)) fresh ⟩
      raise_approval text (c ∷ k) (record_tool (c ∷ k) q no_facts t)
    ≡⟨ raise_approval-named text c k _ ⟩
      add_signal sig (update_facts (c ∷ k) refuse (record_tool (c ∷ k) q no_facts t))
    ≡⟨ ap (add_signal sig) (update_facts-record_tool c k q no_facts refuse t) ⟩
      add_signal sig (record_tool (c ∷ k) q (refuse no_facts) t)
    ≡⟨ sym (forget_early-append (c ∷ k) q (refuse no_facts) sig t unknown) ⟩
      record_tool (c ∷ k) q (refuse no_facts) (forget_early (c ∷ k) (add_signal sig noted))
    ≡⟨ sym (add_tool-claim (c ∷ k) q (refuse no_facts) (add_signal sig noted) waiting) ⟩
      add_tool (c ∷ k) q (add_signal sig noted)
    ≡⟨ ap (λ u. add_tool (c ∷ k) q (add_signal sig u))
        (sym (update_facts-early (c ∷ k) refuse t no_call unknown room)) ⟩
      add_tool (c ∷ k) q (add_signal sig (update_facts (c ∷ k) refuse t))
    ≡⟨ ap (add_tool (c ∷ k) q) (sym (raise_approval-named text c k t)) ⟩
      add_tool (c ∷ k) q (raise_approval text (c ∷ k) t) ∎
