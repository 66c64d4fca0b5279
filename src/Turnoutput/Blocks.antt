-- ===== src/Turnoutput/Blocks.antt =====
-- The text of a turn (turnoutput/reducer.go): its blocks, their bounds, and the choice of the
-- turn's text.
pub mod Cut
pub mod Pick
pub mod Bounds
use go_agent_wrapper.Shared.{
  ℕ, zero, suc, ◌+◌, ◌-◌, ◌≡◌, refl, Bytes, ◌==◌, is_empty, trim_space, Bool, true, false, not,
  ◌&&◌, ◌||◌, Option, none, some, List, [], ◌∷◌, ◌++◌, map, reverse, length, get_elem?, set, drop,
  ltb, leb, if◌then◌else◌,
}
use go_agent_wrapper.Turnoutput.Output.{Confidence, exact, heuristic}
use go_agent_wrapper.Turnoutput.Turn.{
  Block, Tool, Signal, PendingRequest, Turn, max_blocks, max_turn_bytes, max_block_bytes,
  max_signal_bytes,
}

-- utf8.RuneStart: a byte that does not continue a character.
rune_start : ℕ → Bool
rune_start c = ltb c 0x80 || leb 0xC0 c

-- The bytes kept of the front, in reverse: from a cut that would stand before `next`, go back to
-- a place where a character starts.
back_up : Bytes → ℕ → Bytes
unfolding rune_start
back_up [] next = []
back_up (c ∷ front) next =
    let shorter = back_up front c in if rune_start next then c ∷ front else shorter

-- `front` holds the bytes passed, in reverse.
cut_from : Bytes → ℕ → Bytes → Bytes
unfolding back_up
cut_from front n [] = reverse front
cut_from front zero (c ∷ s) = reverse (back_up front c)
cut_from front (suc n) (c ∷ s) = cut_from (c ∷ front) n s

-- cutUTF8; a negative n of the source is 0 here.
unfoldable pub cut_utf8 : Bytes → ℕ → Bytes
unfolding cut_from
cut_utf8 s n = cut_from [] n s

unfoldable pub clip : Bytes → Bytes
clip s = cut_utf8 (trim_space s) max_signal_bytes

-- `if x > 0 { x-- }`: the subtraction that stops at 0.
abbrev pub shift_tool : Tool → Tool
shift_tool tl = record tl { blocks_at = tl.blocks_at - 1 }

abbrev pub shift_signal : Signal → Signal
shift_signal sig = record sig { at = sig.at - 1 }

abbrev pub shift_pending : PendingRequest → PendingRequest
shift_pending p = record p { sig = shift_signal p.sig }

unfoldable pub blocks_shifted : Turn → Turn
blocks_shifted t = record t {
  tools = map shift_tool t.tools;
  signals = map shift_signal t.signals;
  pending = map shift_pending t.pending;
}

-- One round of trim's loop: drop the oldest block.
unfoldable pub drop_oldest : Block → List Block → Turn → Turn
unfolding blocks_shifted
drop_oldest oldest rest t =
    blocks_shifted (record t { nbytes = t.nbytes - length oldest.text; blocks = rest })

-- The test of trim's loop, apart from `len(t.blocks) > 1`.
abbrev pub over_bounds : List Block → Turn → Bool
over_bounds bs t = ltb max_blocks (length bs) || ltb max_turn_bytes t.nbytes

-- trim's loop, by recursion on the blocks of the turn.
unfoldable pub trim_loop : List Block → Turn → Turn
unfolding drop_oldest
trim_loop [] t = t
trim_loop (b ∷ []) t = t
trim_loop (b ∷ c ∷ bs) t =
    let rest = trim_loop (c ∷ bs) (drop_oldest b (c ∷ bs) t) in
    if over_bounds (b ∷ c ∷ bs) t then rest else t

unfoldable pub trim : Turn → Turn
unfolding trim_loop
trim t = trim_loop t.blocks t

-- t.byID[blockID]: the position of the block with the id.
unfoldable pub find_block : Bytes → List Block → Option ℕ
find_block k [] = none
find_block k (b ∷ bs) =
    let rest = find_block k bs in
    if b.id == k then some 0 else elim rest [ none ↦ none | some i ↦ some (suc i) ]

abbrev pub new_block : Bytes → Block
new_block i = record { id = i; final = false; text = [] }

-- The first block of the switch of addDelta: where the delta goes, with the block made if new.
unfoldable pub locate : Bytes → Turn → ℕ × Turn
unfolding find_block
locate block_id t =
    if not (is_empty block_id)
    then elim (find_block block_id t.blocks) [
      | some i ↦ (i, record t { anon_open = false })
      | none ↦ (
        length t.blocks,
        record t { blocks = t.blocks ++ new_block block_id ∷ []; anon_open = false },
      )
    ]
    else if t.anon_open
    then (length t.blocks - 1, t)
    else (length t.blocks, record t { blocks = t.blocks ++ new_block [] ∷ []; anon_open = true })

-- The block takes as much of the text as it has room for.
unfoldable pub write_block : ℕ → Bytes → Bool → Turn → Turn
write_block i text final t = elim (get_elem? t.blocks i) [
  | none ↦ t
  | some b ↦
      let cut = cut_utf8 text (max_block_bytes - length b.text) in
      record t {
        blocks = set t.blocks i (record b { text = b.text ++ cut; final = b.final || final });
        nbytes = t.nbytes + length cut;
      }
]

unfoldable pub add_delta : Bytes → Bytes → Bool → Turn → Turn
unfolding locate write_block trim
add_delta text block_id final t =
    if is_empty text
    then t
    else let (i, t') = locate block_id t in trim (write_block i text final t')

unfoldable pub boundary : Turn → Turn
boundary t = record t { anon_open = false }

-- The two loops of pick, from the last block back; the list comes in reverse.
unfoldable pub last_final : List Block → Option Bytes
last_final [] = none
last_final (b ∷ bs) =
    let rest = last_final bs in
    if b.final && not (is_empty (trim_space b.text)) then some (trim_space b.text) else rest

unfoldable pub last_text : List Block → Option Bytes
last_text [] = none
last_text (b ∷ bs) =
    let rest = last_text bs in
    if not (is_empty (trim_space b.text)) then some (trim_space b.text) else rest

unfoldable pub pick : ℕ → Bytes → Turn → Bytes × Confidence
unfolding last_final last_text
pick from term_text t =
    if not (is_empty (trim_space term_text))
    then (trim_space term_text, exact)
    else elim (last_final (reverse (drop from t.blocks))) [
      | some s ↦ (s, exact)
      | none ↦ elim (last_text (reverse (drop from t.blocks))) [
        | some s ↦ (s, heuristic)
        | none ↦ ([], heuristic)
      ]
    ]

cut_utf8_test : cut_utf8 (0x61 ∷ 0xE2 ∷ 0x80 ∷ 0xA8 ∷ []) 3 ≡ 0x61 ∷ []
unfolding cut_utf8
cut_utf8_test = refl
