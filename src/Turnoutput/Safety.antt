-- ===== src/Turnoutput/Safety.antt =====
-- The bounds of a turn (turnoutput/reducer.go, turnoutput/signals.go) under every event of its body
-- (turnoutput/feed.go).
use go_agent_wrapper.Shared.{
  ℕ, Bytes, ◌≡◌, refl, ap, sym, ◌∙◌, Bool, List, [], ◌∷◌, map, length, subst, All, arith,
}
use go_agent_wrapper.Turnoutput.Turn.{Block, Facts, Turn, new_turn}
use go_agent_wrapper.Turnoutput.Blocks.{
  drop_oldest, trim_loop, trim, locate, write_block, add_delta, boundary,
}
use go_agent_wrapper.Turnoutput.Blocks.Bounds.{IsBounded, total, FitsBlock, add_delta-IsBounded}
use go_agent_wrapper.Turnoutput.Signals.{
  add_signal, raise_question, raise_requested_question, raise_approval, request, resolve,
}
use go_agent_wrapper.Turnoutput.Tools.{add_tool, update_facts, tool_result}
use go_agent_wrapper.Turnoutput.Signals.Memory.{
  IsRemembered, add_tool-IsRemembered, tool_result-IsRemembered, add_signal-IsRemembered,
  raise_approval-IsRemembered, request-IsRemembered, resolve-IsRemembered,
}

-- What an operation on the signals leaves alone.
pub record SameText (t u : Turn) : Type 0 where
  pub id : u.id ≡ t.id
  pub blocks : u.blocks ≡ t.blocks
  pub nbytes : u.nbytes ≡ t.nbytes
  pub anon_open : u.anon_open ≡ t.anon_open

SameText-trans : {t u v : Turn} → SameText t u → SameText u v → SameText t v
SameText-trans h k = record {
  id = k.id ∙ h.id;
  blocks = k.blocks ∙ h.blocks;
  nbytes = k.nbytes ∙ h.nbytes;
  anon_open = k.anon_open ∙ h.anon_open;
}

SameText-refl : (t : Turn) → SameText t t
SameText-refl t = record { id = refl; blocks = refl; nbytes = refl; anon_open = refl }

IsBounded-SameText : {t u : Turn} → SameText t u → IsBounded t → IsBounded u
IsBounded-SameText {t} {u} s h = record {
  is_counted = record {
    counted = s.nbytes ∙ h.is_counted.counted ∙ ap total (sym s.blocks);
    fitting = subst (All FitsBlock) (sym s.blocks) h.is_counted.fitting;
    anon_block = λ a. rw s.blocks (h.is_counted.anon_block (sym s.anon_open ∙ a));
  };
  few = rw s.blocks h.few;
  short = rw s.nbytes h.short;
}

add_tool-SameText : (k : Bytes) (q : Bool) (t : Turn) → SameText t (add_tool k q t)
unfolding add_tool
add_tool-SameText k q t = ground arith

update_facts-SameText : (k : Bytes) (f : Facts → Facts) (t : Turn) → SameText t (update_facts k f t)
unfolding update_facts
update_facts-SameText k f t = ground arith

tool_result-SameText : (k : Bytes) (e : Bool) (t : Turn) → SameText t (tool_result k e t)
unfolding tool_result
tool_result-SameText k e t = ground arith

raise_approval-SameText : (text k : Bytes) (t : Turn) → SameText t (raise_approval text k t)
unfolding raise_approval add_signal
raise_approval-SameText text k t = ground arith

resolve-SameText :
    (ids : List Bytes) (allowed : Bool) (text : Bytes) (t : Turn)
    → SameText t (resolve ids allowed text t)
unfolding resolve add_signal
resolve-SameText ids allowed text t = ground arith

-- What addDelta leaves of the rest of a turn: its id and the number of calls, signals and requests.
record SameSizes (t u : Turn) : Type 0 where
  id : u.id ≡ t.id
  tools : length u.tools ≡ length t.tools
  early : length u.early ≡ length t.early
  signals : length u.signals ≡ length t.signals
  pending : length u.pending ≡ length t.pending

length-map {ℓ κ} :
    {A : Type ℓ} {B : Type κ} (f : A → B) (xs : List A) → length (map f xs) ≡ length xs
length-map f [] = refl
length-map f (x ∷ xs) = omega (arith, length-map f xs)

drop_oldest-SameSizes : (b : Block) (bs : List Block) (t : Turn) → SameSizes t (drop_oldest b bs t)
unfolding drop_oldest
drop_oldest-SameSizes b bs t = record {
  id = refl;
  tools = length-map _ t.tools;
  early = refl;
  signals = length-map _ t.signals;
  pending = length-map _ t.pending;
}

trim_loop-SameSizes : (bs : List Block) (t : Turn) → SameSizes t (trim_loop bs t)
unfolding trim_loop
trim_loop-SameSizes [] t = ground arith
trim_loop-SameSizes (b ∷ []) t = ground arith
trim_loop-SameSizes (b ∷ c ∷ bs) t = ground (
  arith,
  drop_oldest-SameSizes b (c ∷ bs) t,
  trim_loop-SameSizes (c ∷ bs) (drop_oldest b (c ∷ bs) t),
)

locate-SameSizes : (k : Bytes) (t : Turn) → SameSizes t (locate k t).1
unfolding locate
locate-SameSizes k t = ground arith

write_block-SameSizes :
    (i : ℕ) (text : Bytes) (final : Bool) (t : Turn) → SameSizes t (write_block i text final t)
unfolding write_block
write_block-SameSizes i text final t = ground arith

add_delta-SameSizes :
    (text k : Bytes) (final : Bool) (t : Turn) → SameSizes t (add_delta text k final t)
unfolding add_delta trim
add_delta-SameSizes text k final t =
    let u = (locate k t).1 in
    let v = write_block (locate k t).0 text final u in
    ground (
      arith,
      locate-SameSizes k t,
      write_block-SameSizes (locate k t).0 text final u,
      trim_loop-SameSizes v.blocks v,
    )

-- The bounds of a turn: of its text and of what it remembers.
pub record IsSafe (t : Turn) : Type 0 where
  pub bounded : IsBounded t
  pub remembered : IsRemembered t

-- A step of a turn keeps its id and its bounds.
pub record Keeps (f : Turn → Turn) : Type 0 where
  pub same_id : (t : Turn) → (f t).id ≡ t.id
  pub safe : (t : Turn) → IsSafe t → IsSafe (f t)

pub new_turn-IsSafe : (k : Bytes) → IsSafe (new_turn k)
unfolding new_turn
new_turn-IsSafe k = ground arith

pub Keeps-boundary : Keeps boundary
unfolding boundary
Keeps-boundary = record { same_id = λ t. refl; safe = λ t h. ground (arith, h) }

pub Keeps-add_delta : (text k : Bytes) (final : Bool) → Keeps (add_delta text k final)
Keeps-add_delta text k final = record {
  same_id = λ t. (add_delta-SameSizes text k final t).id;
  safe = λ t h. record {
    bounded = add_delta-IsBounded text k final t h.bounded;
    remembered = omega (arith, h.remembered, add_delta-SameSizes text k final t);
  };
}

module _ (f : Turn → Turn) (same : (t : Turn) → SameText t (f t))
    (kept : (t : Turn) → IsRemembered t → IsRemembered (f t)) where
  Keeps-signals : Keeps f
  Keeps-signals = record {
    same_id = λ t. (same t).id;
    safe = λ t h. record {
      bounded = IsBounded-SameText (same t) h.bounded;
      remembered = kept t h.remembered;
    };
  }

pub Keeps-add_tool : (k : Bytes) (q : Bool) → Keeps (add_tool k q)
Keeps-add_tool k q =
    Keeps-signals (add_tool k q) (add_tool-SameText k q) (add_tool-IsRemembered k q)

pub Keeps-tool_result : (k : Bytes) (e : Bool) → Keeps (tool_result k e)
Keeps-tool_result k e =
    Keeps-signals (tool_result k e) (tool_result-SameText k e) (tool_result-IsRemembered k e)

pub Keeps-raise_approval : (text k : Bytes) → Keeps (raise_approval text k)
Keeps-raise_approval text k =
    Keeps-signals (raise_approval text k) (raise_approval-SameText text k)
      (raise_approval-IsRemembered text k)

pub Keeps-resolve :
    (ids : List Bytes) (allowed : Bool) (text : Bytes) → Keeps (resolve ids allowed text)
Keeps-resolve ids allowed text =
    Keeps-signals (resolve ids allowed text) (resolve-SameText ids allowed text)
      (resolve-IsRemembered ids allowed text)

pub Keeps-request : (ids : List Bytes) (text : Bytes) → Keeps (request ids text)
unfolding request
Keeps-request ids text =
    Keeps-signals (request ids text)
      (λ t. record { id = refl; blocks = refl; nbytes = refl; anon_open = refl })
      (request-IsRemembered ids text)

pub Keeps-raise_question : (text k : Bytes) → Keeps (raise_question text k)
unfolding raise_question
Keeps-raise_question text k =
    Keeps-signals (raise_question text k)
      (λ t. record { id = refl; blocks = refl; nbytes = refl; anon_open = refl })
      (λ t h. add_signal-IsRemembered _ t h)

pub Keeps-raise_requested_question : (text : Bytes) → Keeps (raise_requested_question text)
unfolding raise_requested_question
Keeps-raise_requested_question text =
    Keeps-signals (raise_requested_question text)
      (λ t. record { id = refl; blocks = refl; nbytes = refl; anon_open = refl })
      (λ t h. add_signal-IsRemembered _ t h)

pub Keeps-id : Keeps (λ t. t)
Keeps-id = record { same_id = λ t. refl; safe = λ t h. h }

pub Keeps-then : {f g : Turn → Turn} → Keeps f → Keeps g → Keeps (λ t. g (f t))
Keeps-then {f} {g} kf kg = record {
  same_id = λ t. kg.same_id (f t) ∙ kf.same_id t;
  safe = λ t h. kg.safe (f t) (kf.safe t h);
}

pub ruleset keeps_rules = (
  Keeps-boundary, Keeps-add_delta, Keeps-add_tool, Keeps-tool_result, Keeps-raise_approval,
  Keeps-resolve, Keeps-request, Keeps-raise_question, Keeps-raise_requested_question, Keeps-id,
)
