-- ===== src/Turnoutput/Blocks/Bounds.antt =====
-- The bounds on a turn's text (turnoutput/reducer.go): what addDelta and trim keep.
use go_agent_wrapper.Shared.{
  ℕ, zero, suc, ◌+◌, ◌-◌, ◌≤◌, ◌<◌, Bytes, ◌≡◌, refl, ap, inl, inr, Bool, true, false, some, List,
  [], ◌∷◌, ◌++◌, length, length-append, length-set, get_elem?, set, All, All-append, Bool-cases,
  Option-cases, arith, ◌||◌, subst,
}
use go_agent_wrapper.Turnoutput.Turn.{Block, Turn, max_blocks, max_turn_bytes, max_block_bytes}
use go_agent_wrapper.Turnoutput.Blocks.{
  cut_utf8, drop_oldest, trim_loop, trim, new_block, locate, write_block, add_delta, over_bounds,
}
use go_agent_wrapper.Turnoutput.Blocks.Cut.{length-cut_utf8}

-- The text held across the blocks.
abbrev pub total : List Block → ℕ
total [] = 0
total (b ∷ bs) = length b.text + total bs

abbrev pub FitsBlock : Block → Type 0
FitsBlock b = length b.text ≤ max_block_bytes

-- What holds between the steps of addDelta, before trim.
pub record IsCounted (t : Turn) : Type 0 where
  pub counted : t.nbytes ≡ total t.blocks
  pub fitting : All FitsBlock t.blocks
  pub anon_block : t.anon_open ≡ true → 0 < length t.blocks

-- What holds of a turn between two events.
pub record IsBounded (t : Turn) : Type 0 where
  pub is_counted : IsCounted t
  pub few : length t.blocks ≤ max_blocks
  pub short : t.nbytes ≤ max_turn_bytes

total-append : (xs ys : List Block) → total (xs ++ ys) ≡ total xs + total ys
total-append [] ys = omega arith
total-append (b ∷ bs) ys = omega (arith, total-append bs ys)

total-set :
    (bs : List Block) (i : ℕ) (b c : Block)
    → get_elem? bs i ≡ some b
    → total (set bs i c) + length b.text ≡ total bs + length c.text
total-set [] i b c h = cc
total-set (d ∷ bs) zero b c h = ground arith
total-set (d ∷ bs) (suc i) b c h = omega (arith, total-set bs i b c h)

All-set :
    (bs : List Block) (i : ℕ) (c : Block)
    → All FitsBlock bs
    → FitsBlock c
    → All FitsBlock (set bs i c)
All-set [] i c h k = h
All-set (d ∷ bs) zero c h k = (k, h.1)
All-set (d ∷ bs) (suc i) c h k = (h.0, All-set bs i c h.1 k)

All-get :
    (bs : List Block) (i : ℕ) (b : Block) → All FitsBlock bs → get_elem? bs i ≡ some b → FitsBlock b
All-get [] i b h e = cc
All-get (d ∷ bs) zero b h e = ground arith
All-get (d ∷ bs) (suc i) b h e = All-get bs i b h.1 e

new_block-IsCounted :
    (t : Turn) (k : Bytes) (anon : Bool)
    → IsCounted t
    → IsCounted (record t { blocks = t.blocks ++ new_block k ∷ []; anon_open = anon })
new_block-IsCounted t k anon h = record {
  counted = omega (arith, h.counted, total-append t.blocks (new_block k ∷ []));
  fitting = All-append FitsBlock t.blocks (new_block k ∷ []) h.fitting (omega arith);
  anon_block = λ _. omega (arith, length-append t.blocks (new_block k ∷ []));
}

locate-IsCounted : (k : Bytes) (t : Turn) → IsCounted t → IsCounted (locate k t).1
unfolding locate
locate-IsCounted k t h =
    ground (arith, h, new_block-IsCounted t k false, new_block-IsCounted t [] true)

write_block-IsCounted :
    (i : ℕ) (text : Bytes) (final : Bool) (t : Turn)
    → IsCounted t
    → IsCounted (write_block i text final t)
unfolding write_block
write_block-IsCounted i text final t h = elim (Option-cases (get_elem? t.blocks i)) [
  | inl e ↦ rw (e, write_block) h
  | inr (b, e) ↦
      let cut = cut_utf8 text (max_block_bytes - length b.text) in
      let c : Block = record b { text = b.text ++ cut; final = b.final || final } in
      let short = length-cut_utf8 text (max_block_bytes - length b.text) in
      let room = All-get t.blocks i b h.fitting e in
      rw (e, write_block)
        (record {
          counted = omega (arith, h.counted, total-set t.blocks i b c e, length-append b.text cut);
          fitting = All-set t.blocks i c h.fitting (omega (arith, length-append b.text cut));
          anon_block = λ a. omega (arith, h.anon_block a, length-set t.blocks i c);
        })
]

drop_oldest-IsCounted :
    (b c : Block) (bs : List Block) (t : Turn)
    → t.blocks ≡ b ∷ c ∷ bs
    → IsCounted t
    → IsCounted (drop_oldest b (c ∷ bs) t)
unfolding drop_oldest
drop_oldest-IsCounted b c bs t e h =
    let held : total t.blocks ≡ total (b ∷ c ∷ bs) = ap total e in
    let fit : All FitsBlock (b ∷ c ∷ bs) = subst (All FitsBlock) e h.fitting in
    record { counted = omega (arith, h.counted); fitting = fit.1; anon_block = λ _. omega arith }

trim_loop-IsBounded :
    (bs : List Block) (t : Turn) → t.blocks ≡ bs → IsCounted t → IsBounded (trim_loop bs t)
unfolding trim_loop
trim_loop-IsBounded [] t e h = record {
  is_counted = h;
  few = rw e (omega arith);
  short = omega (arith, h.counted, ap total e);
}
trim_loop-IsBounded (b ∷ []) t e h =
    let fit : All FitsBlock (b ∷ []) = subst (All FitsBlock) e h.fitting in
    record {
      is_counted = h;
      few = rw e (omega arith);
      short = omega (arith, h.counted, ap total e);
    }
trim_loop-IsBounded (b ∷ c ∷ bs) t e h = elim (Bool-cases (over_bounds (b ∷ c ∷ bs) t)) [
  | inl over ↦ rw over (
      trim_loop-IsBounded (c ∷ bs) (drop_oldest b (c ∷ bs) t) (unfold drop_oldest in refl)
        (drop_oldest-IsCounted b c bs t e h))
  | inr within ↦ rw within (record {
    is_counted = h;
    few = rw e (ground (arith, within));
    short = ground (arith, within);
  })
]

-- From a turn within its bounds, whatever the delta's text, block id and phase, addDelta leaves a
-- turn within its bounds: the byte count is the length of the text held, no block is longer than
-- maxBlockBytes, no more than maxBlocks blocks and maxTurnBytes bytes are held, and an open
-- anonymous block exists.
pub add_delta-IsBounded :
    (text block_id : Bytes) (final : Bool) (t : Turn)
    → IsBounded t
    → IsBounded (add_delta text block_id final t)
unfolding add_delta
add_delta-IsBounded [] block_id final t h = h
add_delta-IsBounded (c ∷ text) block_id final t h =
    let (i, u) = locate block_id t in
    let v = write_block i (c ∷ text) final u in
    unfold trim in
    trim_loop-IsBounded v.blocks v refl
      (write_block-IsCounted i (c ∷ text) final u (locate-IsCounted block_id t h.is_counted))
