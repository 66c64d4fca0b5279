-- ===== src/Turnoutput/Turn.antt =====
-- The buffer of one turn in progress: the types `turn`, `block`, `tool`, `facts`, `outcome`,
-- `signal` and `pendingRequest` of turnoutput/reducer.go and turnoutput/signals.go.
--
-- `byID` is the index of `blocks` by their ids, so the model looks an id up in `blocks`. The map
-- `early` and its order `earlyOrder` are one association list, oldest first.
use go_agent_wrapper.Shared.{ℕ, Bytes, Bool, false, Option, none, List, []}
use go_agent_wrapper.Turnoutput.Output.{Kind}

abbrev pub max_blocks : ℕ
max_blocks = 128

-- 4 << 20
abbrev pub max_turn_bytes : ℕ
max_turn_bytes = 4194304

-- 1 << 20
abbrev pub max_block_bytes : ℕ
max_block_bytes = 1048576

abbrev pub max_pending : ℕ
max_pending = 64

-- 8 << 10
abbrev pub max_signal_bytes : ℕ
max_signal_bytes = 8192

abbrev pub max_tools : ℕ
max_tools = 256

abbrev pub max_signals : ℕ
max_signals = 64

abbrev pub max_early : ℕ
max_early = 256

pub record Block : Type 0 where
  pub id : Bytes
  pub final : Bool
  pub text : Bytes

pub record Outcome : Type 0 where
  pub is_error : Bool
  pub seq : ℕ

-- `result` and `hasResult` of the source are one optional outcome.
pub record Facts : Type 0 where
  pub result : Option Outcome
  pub refused : Bool

abbrev pub no_facts : Facts
no_facts = record { result = none; refused = false }

pub record Tool : Type 0 where
  pub id : Bytes
  pub blocks_at : ℕ
  pub seq : ℕ
  pub question : Bool
  pub facts : Facts

pub record Signal : Type 0 where
  pub kind : Kind
  pub text : Bytes
  pub by_tool : Bool
  pub tool_id : Bytes
  pub tool_call : Bool
  pub at : ℕ
  pub seq : ℕ

pub record PendingRequest : Type 0 where
  pub ids : List Bytes
  pub sig : Signal

pub record Turn : Type 0 where
  pub id : Bytes
  pub blocks : List Block
  pub anon_open : Bool
  pub usage_stop : Bytes
  pub nbytes : ℕ
  pub seq : ℕ
  pub tools : List Tool
  pub early : List (Bytes × Facts)
  pub signals : List Signal
  pub pending : List PendingRequest

unfoldable pub new_turn : Bytes → Turn
new_turn i = record {
  id = i;
  blocks = [];
  anon_open = false;
  usage_stop = [];
  nbytes = 0;
  seq = 0;
  tools = [];
  early = [];
  signals = [];
  pending = [];
}
