-- ===== src/Turnoutput/Signals/Memory.antt =====
-- The bounds of turnoutput/signals.go: what a turn remembers of calls, signals and requests.
use go_agent_wrapper.Shared.{
  ℕ, suc, ◌+◌, ◌≤◌, ◌<◌, Bytes, ==-refl, is_empty, ◌≡◌, refl, ap, Bool, true, false, Option, none,
  some, is_some, List, [], ◌∷◌, ◌++◌, length, length-append, length-set, length-drop, get_elem?,
  length-keep_last, lookup, delete, insert, leb, Option-cases, Bool-cases, if◌then◌else◌, inl, inr,
  arith,
}
use go_agent_wrapper.Turnoutput.Turn.{
  Facts, no_facts, Tool, Signal, PendingRequest, Turn, max_tools, max_signals, max_early,
  max_pending,
}
use go_agent_wrapper.Turnoutput.Signals.{
  approval_of, request_signal, add_signal, refuse, raise_approval, request, take_named,
  take_request, resolve,
}
use go_agent_wrapper.Turnoutput.Tools.{
  evict_oldest, update_tool, update_early, tool_index, make_room, new_tool, record_tool,
  forget_early, claim, add_tool, evict_early, update_facts, facts_of, tool_result,
}

-- The bounds of a turn's memory.
pub record IsRemembered (t : Turn) : Type 0 where
  pub tools : length t.tools ≤ max_tools
  pub early : length t.early ≤ max_early
  pub signals : length t.signals ≤ max_signals
  pub pending : length t.pending ≤ max_pending

length-delete : (k : Bytes) (m : List (Bytes × Facts)) → length (delete k m) ≤ length m
unfolding delete
length-delete k [] = omega arith
length-delete k ((j, v) ∷ m) = ground (arith, length-delete k m)

length-insert :
    (k : Bytes) (v w : Facts) (m : List (Bytes × Facts))
    → lookup k m ≡ some w
    → length (insert k v m) ≡ length m
unfolding lookup insert
length-insert k v w [] h = cc
length-insert k v w ((j, u) ∷ m) h = ground (arith, length-insert k v w m)

length-make_room :
    (tools : List Tool) → length tools ≤ max_tools → length (make_room tools) < max_tools
unfolding make_room
length-make_room tools h = ground (arith, length-drop 1 tools)

record_tool-IsRemembered :
    (k : Bytes) (q : Bool) (f : Facts) (t : Turn)
    → IsRemembered t
    → IsRemembered (record_tool k q f t)
unfolding record_tool
record_tool-IsRemembered k q f t h =
    let room = length-make_room t.tools h.tools in
    record {
      tools = omega (arith, length-append (make_room t.tools) (new_tool k q f t ∷ []));
      early = h.early;
      signals = h.signals;
      pending = h.pending;
    }

forget_early-IsRemembered :
    (k : Bytes) (t : Turn) → IsRemembered t → IsRemembered (forget_early k t)
unfolding forget_early
forget_early-IsRemembered k t h = omega (arith, h, length-delete k t.early)

pub add_tool-IsRemembered :
    (k : Bytes) (q : Bool) (t : Turn) → IsRemembered t → IsRemembered (add_tool k q t)
unfolding add_tool
add_tool-IsRemembered k q t h = elim (Option-cases (claim k t)) [
  | inl e ↦ rw (e, add_tool) (record_tool-IsRemembered k q no_facts t h)
  | inr (f, e) ↦
      rw (e, add_tool)
        (record_tool-IsRemembered k q f (forget_early k t) (forget_early-IsRemembered k t h))
]

delete_first :
    (m : List (Bytes × Facts)) (k : Bytes) (f : Facts) → length (delete k ((k, f) ∷ m)) ≤ length m
unfolding delete
delete_first m k f = rw ==-refl (length-delete k m)

evict_oldest_room :
    (es : List (Bytes × Facts)) (t : Turn)
    → t.early ≡ es
    → 0 < length es
    → IsRemembered t
    → IsRemembered (evict_oldest es t) × (length (evict_oldest es t).early < max_early)
unfolding forget_early
evict_oldest_room [] t e p h = elim p [ ]
evict_oldest_room ((k, f) ∷ es) t e p h =
    let shorter = delete_first es k f in
    let size = ap (length {A = Bytes × Facts}) e in rw e (omega (arith, h))

evict_early-IsRemembered :
    (t : Turn)
    → IsRemembered t
    → IsRemembered (evict_early t) × (length (evict_early t).early < max_early)
unfolding evict_early
evict_early-IsRemembered t h = elim (Bool-cases (leb max_early (length t.early))) [
  | inl full ↦ rw full (evict_oldest_room t.early t refl (ground (arith, full)) h)
  | inr room ↦ rw room (h, ground (arith, room))
]

update_tool-IsRemembered :
    (i : ℕ) (f : Facts → Facts) (t : Turn) → IsRemembered t → IsRemembered (update_tool i f t)
unfolding update_tool
update_tool-IsRemembered i f t h = elim (Option-cases (get_elem? t.tools i)) [
  | inl e ↦ rw (e, update_tool) h
  | inr (tl, e) ↦
      rw (e, update_tool)
        (omega (arith, h, length-set t.tools i (record tl { facts = f tl.facts })))
]

update_early-IsRemembered :
    (k : Bytes) (f : Facts → Facts) (t : Turn) → IsRemembered t → IsRemembered (update_early k f t)
unfolding update_early
update_early-IsRemembered k f t h = elim (Option-cases (lookup k t.early)) [
  | inl e ↦
      let (kept, room) = evict_early-IsRemembered t h in
      rw (e, update_early)
        (omega (arith, kept, length-append (evict_early t).early ((k, f no_facts) ∷ [])))
  | inr (g, e) ↦ rw (e, update_early) (omega (arith, h, length-insert k (f g) g t.early e))
]

update_facts-IsRemembered :
    (k : Bytes) (f : Facts → Facts) (t : Turn) → IsRemembered t → IsRemembered (update_facts k f t)
unfolding update_facts
update_facts-IsRemembered k f t h = elim (Option-cases (tool_index k t)) [
  | inl e ↦ rw (e, update_facts) (update_early-IsRemembered k f t h)
  | inr (i, e) ↦ rw (e, update_facts) (update_tool-IsRemembered i f t h)
]

pub tool_result-IsRemembered :
    (k : Bytes) (is_error : Bool) (t : Turn)
    → IsRemembered t
    → IsRemembered (tool_result k is_error t)
unfolding tool_result
tool_result-IsRemembered k is_error t h =
    let f =
      λ (g : Facts). record g { result = some (record { is_error = is_error; seq = t.seq + 1 }) } in
    let u = record t { seq = t.seq + 1 } in
    elim (Bool-cases (is_empty k)) [
      | inl e ↦ rw e h
      | inr e ↦ rw e (elim (Bool-cases (is_some (facts_of k t).result)) [
        | inl r ↦ rw r h
        | inr r ↦ rw r (update_facts-IsRemembered k f u (omega (arith, h)))
      ])
    ]

pub add_signal-IsRemembered :
    (sig : Signal) (t : Turn) → IsRemembered t → IsRemembered (add_signal sig t)
unfolding add_signal
add_signal-IsRemembered sig t h = record {
  tools = h.tools;
  early = h.early;
  signals = length-keep_last max_signals (t.signals ++ sig ∷ []);
  pending = h.pending;
}

pub raise_approval-IsRemembered :
    (text k : Bytes) (t : Turn) → IsRemembered t → IsRemembered (raise_approval text k t)
unfolding raise_approval
raise_approval-IsRemembered text [] t h = add_signal-IsRemembered (approval_of text []) t h
raise_approval-IsRemembered text (c ∷ k) t h =
    add_signal-IsRemembered (approval_of text (c ∷ k)) (update_facts (c ∷ k) refuse t)
      (update_facts-IsRemembered (c ∷ k) refuse t h)

pub request-IsRemembered :
    (ids : List Bytes) (text : Bytes) (t : Turn)
    → IsRemembered t
    → IsRemembered (request ids text t)
unfolding request
request-IsRemembered ids text t h = record {
  tools = h.tools;
  early = h.early;
  signals = h.signals;
  pending =
      length-keep_last max_pending
        (t.pending ++ record { ids = ids; sig = request_signal text t } ∷ []);
}

-- What is taken is one request, and the others stay.
abbrev Shrinks : List PendingRequest → Option (PendingRequest × List PendingRequest) → Type 0
Shrinks ps none = Unit
Shrinks ps (some (p, rest)) = length ps ≡ suc (length rest)

take_named-Shrinks : (ids : List Bytes) (ps : List PendingRequest) → Shrinks ps (take_named ids ps)
unfolding take_named
take_named-Shrinks ids [] = tt
take_named-Shrinks ids (q ∷ ps) = ground (arith, take_named-Shrinks ids ps)

take_request-Shrinks :
    (ids : List Bytes) (ps : List PendingRequest) → Shrinks ps (take_request ids ps)
unfolding take_request
take_request-Shrinks ids ps = ground (arith, take_named-Shrinks ids ps)

-- `resolve` by what take_request found.
abbrev settle : Option (PendingRequest × List PendingRequest) → Bool → Bytes → Turn → Turn
settle none allowed text t = if allowed then t else add_signal (request_signal text t) t
settle (some (p, rest)) allowed text t =
    let u = record t { pending = rest } in if allowed then u else add_signal p.sig u

settle-IsRemembered :
    (r : Option (PendingRequest × List PendingRequest)) (allowed : Bool) (text : Bytes) (t : Turn)
    → Shrinks t.pending r
    → IsRemembered t
    → IsRemembered (settle r allowed text t)
settle-IsRemembered none true text t s h = h
settle-IsRemembered none false text t s h = add_signal-IsRemembered (request_signal text t) t h
settle-IsRemembered (some (p, rest)) true text t s h = omega (arith, h)
settle-IsRemembered (some (p, rest)) false text t s h =
    add_signal-IsRemembered p.sig (record t { pending = rest }) (omega (arith, h))

resolve-settle :
    (ids : List Bytes) (allowed : Bool) (text : Bytes) (t : Turn)
    → resolve ids allowed text t ≡ settle (take_request ids t.pending) allowed text t
unfolding resolve
resolve-settle ids allowed text t = elim (Option-cases (take_request ids t.pending)) [
  | inl e ↦ rw (e, resolve)
  | inr (r, e) ↦ rw (e, resolve)
]

pub resolve-IsRemembered :
    (ids : List Bytes) (allowed : Bool) (text : Bytes) (t : Turn)
    → IsRemembered t
    → IsRemembered (resolve ids allowed text t)
resolve-IsRemembered ids allowed text t h = rw resolve-settle (
    settle-IsRemembered (take_request ids t.pending) allowed text t
      (take_request-Shrinks ids t.pending) h)
