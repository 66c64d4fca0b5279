-- ===== src/Turnoutput/Reducer.antt =====
-- turnoutput/reducer.go: the turns of a session while they are open.
--
-- A `*turn` of the source is the key of an entry of `open`. The function newTurnID is the host's
-- or a library's: its n-th call returns `new_turn_id n`, and `minted` counts the calls.
pub mod Opening
pub mod Invariant
pub mod Endings
pub mod Reports
pub mod Finished
use go_agent_wrapper.Shared.{
  ℕ, suc, ◌+◌, Bytes, bytes, ◌==◌, is_empty, trim_space, to_lower, Bool, true, false, not, ◌&&◌,
  ◌||◌, Option, none, some, List, [], ◌∷◌, ◌++◌, length, get_last?, keep_last, lookup, delete,
  insert, ltb, if◌then◌else◌,
}
use go_agent_wrapper.Turnoutput.Output.{
  Kind, final, failure, terminal, Confidence, exact, heuristic, Output, default_question_tools,
}
use go_agent_wrapper.Turnoutput.Turn.{Signal, Turn, new_turn}
use go_agent_wrapper.Turnoutput.Blocks.{pick}
use go_agent_wrapper.Turnoutput.Signals.{contains, open_signal, signal_text}

abbrev pub finished_memory : ℕ
finished_memory = 64

abbrev pub max_open_turns : ℕ
max_open_turns = 64

pub record DoneSignature : Type 0 where
  pub stop : Bytes
  pub text : Bytes

abbrev pub same_signature : DoneSignature → DoneSignature → Bool
same_signature a b = a.stop == b.stop && a.text == b.text

pub record Config : Type 0 where
  pub session_id : Bytes
  pub runtime : Bytes
  pub new_turn_id : ℕ → Bytes
  pub question_tools : Option (List Bytes)

pub record Reducer : Type 0 where
  pub session_id : Bytes
  pub runtime : Bytes
  pub new_turn_id : ℕ → Bytes
  pub minted : ℕ
  pub questions : List Bytes
  pub open_turns : List (Bytes × Turn)
  pub order : List Bytes
  pub finished : List Bytes
  pub settled : Bool
  pub last_done : DoneSignature
  pub held_stop : Bytes
  pub last_error : Bytes
  pub pending_stop : Bytes

abbrev pub question_keys : List Bytes → List Bytes
question_keys [] = []
question_keys (name ∷ names) = to_lower (trim_space name) ∷ question_keys names

abbrev pub tools_of : Option (List Bytes) → List Bytes
tools_of none = default_question_tools
tools_of (some names) = names

-- New
unfoldable pub new : Config → Reducer
new cfg = record {
  session_id = cfg.session_id;
  runtime = cfg.runtime;
  new_turn_id = cfg.new_turn_id;
  minted = 0;
  questions = question_keys (tools_of cfg.question_tools);
  open_turns = [];
  order = [];
  finished = [];
  settled = false;
  last_done = record { stop = []; text = [] };
  held_stop = [];
  last_error = [];
  pending_stop = [];
}

-- The key of current(): the last of the order, where an open turn has it.
unfoldable pub current : Reducer → Option Bytes
current r = elim (get_last? r.order) [
  | none ↦ none
  | some k ↦ elim (lookup k r.open_turns) [ none ↦ none | some t ↦ some k ]
]

-- The loop at the end of begin, by recursion on the order.
unfoldable pub evict_loop : List Bytes → Reducer → Reducer
evict_loop [] r = r
evict_loop (k ∷ ks) r =
    let rest = evict_loop ks (record r { open_turns = delete k r.open_turns; order = ks }) in
    if ltb max_open_turns (length (k ∷ ks)) then rest else r

unfoldable pub begin : Bytes → Reducer → Reducer
unfolding evict_loop new_turn
begin id r =
    let t = record (new_turn id) { usage_stop = r.pending_stop } in
    let r' = record r {
      pending_stop = [];
      held_stop = [];
      open_turns = insert id t r.open_turns;
      order = r.order ++ id ∷ [];
    } in
    record (evict_loop r'.order r') { settled = false }

-- r.newTurnID()
unfoldable pub mint : Reducer → Bytes × Reducer
mint r = (r.new_turn_id r.minted, record r { minted = suc r.minted })

unfoldable pub was_finished : Bytes → Reducer → Bool
was_finished id r = contains r.finished id

-- body: the key of the turn that an event in a turn's body belongs to.
unfoldable pub body : Bytes → Reducer → Option Bytes × Reducer
unfolding current mint begin was_finished
body [] r = elim (current r) [
  | some k ↦ (some k, r)
  | none ↦ let (id, r') = mint r in (some id, begin id r')
]
body (c ∷ id) r = elim (lookup (c ∷ id) r.open_turns) [
  | some t ↦ (some (c ∷ id), r)
  | none ↦ if was_finished (c ∷ id) r then (none, r) else (some (c ∷ id), begin (c ∷ id) r)
]

-- A write through a `*turn`.
unfoldable pub update_turn : Bytes → (Turn → Turn) → Reducer → Reducer
update_turn k f r = elim (lookup k r.open_turns) [
  | none ↦ r
  | some t ↦ record r { open_turns = insert k (f t) r.open_turns }
]

-- `t := r.body(id)` and what is then done to t; nothing for a late event.
unfoldable pub in_body : Bytes → (Turn → Turn) → Reducer → Reducer
unfolding body update_turn
in_body id f r = let (k, r') = body id r in elim k [ none ↦ r' | some j ↦ update_turn j f r' ]

unfoldable pub note_stop : Bytes → Reducer → Reducer
unfolding current update_turn
note_stop stop r = if is_empty stop then r else elim (current r) [
  | some k ↦ update_turn k (λ t. record t { usage_stop = stop }) r
  | none ↦ if r.settled then record r { held_stop = stop } else record r { pending_stop = stop }
]

abbrev pub or_if_empty : Bytes → Bytes → Bytes
or_if_empty a b = if is_empty a then b else a
