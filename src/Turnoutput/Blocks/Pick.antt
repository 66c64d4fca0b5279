-- ===== src/Turnoutput/Blocks/Pick.antt =====
-- pick of turnoutput/reducer.go against a description of the block that it chooses.
use mathlib.Core.List.{append_assoc, reverse-cons, reverse-append}
use go_agent_wrapper.Shared.{
  ℕ, Bytes, is_empty, trim_space, ◌≡◌, refl, sym, ◌∙◌, ap, Bool, true, false, not, ◌&&◌, none, some,
  List, [], ◌∷◌, ◌++◌, reverse, drop, All, All-append, arith, ◌⊎◌, inl, inr, ◌↔◌, Bool-cases, subst,
}
use go_agent_wrapper.Turnoutput.Output.{Confidence, exact, heuristic}
use go_agent_wrapper.Turnoutput.Turn.{Block, Turn}
use go_agent_wrapper.Turnoutput.Blocks.{last_final, last_text, pick}

abbrev pub has_text : Block → Bool
has_text b = not (is_empty (trim_space b.text))

abbrev pub is_answer : Block → Bool
is_answer b = b.final && has_text b

-- `b` is the last block of `bs` that passes the test.
abbrev pub IsLast : (Block → Bool) → List Block → Block → Type 0
IsLast test bs b =
    (before : List Block) × (after : List Block) × (bs ≡ before ++ b ∷ after)
    × (test b ≡ true)
    × All (λ c. test c ≡ false) after

abbrev pub HasNone : (Block → Bool) → List Block → Type 0
HasNone test bs = All (λ c. test c ≡ false) bs

All-reverse : (test : Block → Bool) (bs : List Block) → HasNone test bs → HasNone test (reverse bs)
All-reverse test [] h = h
All-reverse test (b ∷ bs) h =
    rw reverse-cons (All-append _ (reverse bs) (b ∷ []) (All-reverse test bs h.1) (h.0, tt))

last_final-skip :
    (bs cs : List Block) → HasNone is_answer bs → last_final (bs ++ cs) ≡ last_final cs
unfolding last_final
last_final-skip [] cs h = refl
last_final-skip (b ∷ bs) cs h = rw h.0 (last_final-skip bs cs h.1)

last_text-skip : (bs cs : List Block) → HasNone has_text bs → last_text (bs ++ cs) ≡ last_text cs
unfolding last_text
last_text-skip [] cs h = refl
last_text-skip (b ∷ bs) cs h = rw h.0 (last_text-skip bs cs h.1)

reverse_around :
    (before after : List Block) (b : Block)
    → reverse (before ++ b ∷ after) ≡ reverse after ++ b ∷ reverse before
reverse_around before after b = simp (reverse-append, reverse-cons, append_assoc)

last_final_found :
    (bs : List Block) (b : Block)
    → IsLast is_answer bs b
    → last_final (reverse bs) ≡ some (trim_space b.text)
unfolding last_final
last_final_found bs b (before, after, split, test, rest) =
    rw (split, reverse_around before after b)
      (last_final-skip (reverse after) (b ∷ reverse before) (All-reverse is_answer after rest)
        ∙ (rw test))

last_text_found :
    (bs : List Block) (b : Block)
    → IsLast has_text bs b
    → last_text (reverse bs) ≡ some (trim_space b.text)
unfolding last_text
last_text_found bs b (before, after, split, test, rest) =
    rw (split, reverse_around before after b)
      (last_text-skip (reverse after) (b ∷ reverse before) (All-reverse has_text after rest)
        ∙ (rw test))

last_final-none : (bs : List Block) → HasNone is_answer bs → last_final bs ≡ none
unfolding last_final
last_final-none [] h = refl
last_final-none (b ∷ bs) h = rw h.0 (last_final-none bs h.1)

last_text-none : (bs : List Block) → HasNone has_text bs → last_text bs ≡ none
unfolding last_text
last_text-none [] h = refl
last_text-none (b ∷ bs) h = rw h.0 (last_text-none bs h.1)

-- What a turn's text is, and how it is known: the terminal event's own text, else the last block
-- that a delta marked final and that is not blank, else the last block that is not blank, else
-- nothing.
pub data Picks (from : ℕ) (term_text : Bytes) (t : Turn) : Bytes × Confidence → Type 0 where
  own_text :
      is_empty (trim_space term_text) ≡ false → Picks from term_text t (trim_space term_text, exact)
  final_block :
      (b : Block)
      → is_empty (trim_space term_text) ≡ true
      → IsLast is_answer (drop from t.blocks) b
      → Picks from term_text t (trim_space b.text, exact)
  any_block :
      (b : Block)
      → is_empty (trim_space term_text) ≡ true
      → HasNone is_answer (drop from t.blocks)
      → IsLast has_text (drop from t.blocks) b
      → Picks from term_text t (trim_space b.text, heuristic)
  no_block :
      is_empty (trim_space term_text) ≡ true
      → HasNone has_text (drop from t.blocks)
      → Picks from term_text t ([], heuristic)

answer_has_text : (bs : List Block) → HasNone has_text bs → HasNone is_answer bs
answer_has_text [] h = h
answer_has_text (b ∷ bs) h = (ground (arith, h.0), answer_has_text bs h.1)

Picks-pick :
    (from : ℕ) (term_text : Bytes) (t : Turn) {r : Bytes × Confidence}
    → Picks from term_text t r
    → pick from term_text t ≡ r
unfolding pick
Picks-pick from term_text t (own_text h) = rw h
Picks-pick from term_text t (final_block b h last) =
    rw (h, last_final_found (drop from t.blocks) b last)
Picks-pick from term_text t (any_block b h no_answer last) = rw (
  h,
  last_final-none _ (All-reverse is_answer _ no_answer),
  last_text_found (drop from t.blocks) b last,
)
Picks-pick from term_text t (no_block h blank) = rw (
  h,
  last_final-none _ (All-reverse is_answer _ (answer_has_text _ blank)),
  last_text-none _ (All-reverse has_text _ blank),
)

IsLast-or_none :
    (test : Block → Bool) (bs : List Block) → ((b : Block) × IsLast test bs b) ⊎ HasNone test bs
IsLast-or_none test [] = inr tt
IsLast-or_none test (b ∷ bs) = elim (IsLast-or_none test bs) [
  | inl (c, (before, after, split, hit, rest)) ↦
      inl (c, (b ∷ before, after, ap (λ l. b ∷ l) split, hit, rest))
  | inr rest ↦ elim (Bool-cases (test b)) [
    | inl hit ↦ inl (b, ([], bs, refl, hit, rest))
    | inr miss ↦ inr (miss, rest)
  ]
]

pick_described :
    (from : ℕ) (term_text : Bytes) (t : Turn) → (r : Bytes × Confidence) × Picks from term_text t r
pick_described from term_text t = elim (Bool-cases (is_empty (trim_space term_text))) [
  | inr own ↦ (_, own_text own)
  | inl blank ↦ elim (IsLast-or_none is_answer (drop from t.blocks)) [
    | inl (b, last) ↦ (_, final_block b blank last)
    | inr no_answer ↦ elim (IsLast-or_none has_text (drop from t.blocks)) [
      | inl (b, last) ↦ (_, any_block b blank no_answer last)
      | inr nothing ↦ (_, no_block blank nothing)
    ]
  ]
]

-- For every turn, position and terminal text, pick returns a text and a confidence exactly when
-- the description has them: the terminal text when it is not blank (exact), else the last block
-- from the position on that is marked final and not blank (exact), else the last one that is not
-- blank (heuristic), else the empty text (heuristic).
pub pick_iff :
    (from : ℕ) (term_text : Bytes) (t : Turn) (r : Bytes × Confidence)
    → (pick from term_text t ≡ r) ↔ Picks from term_text t r
pick_iff from term_text t r = (
  λ e.
      let (r', picks) = pick_described from term_text t in
      subst (Picks from term_text t) (sym (Picks-pick from term_text t picks) ∙ e) picks,
  λ picks. Picks-pick from term_text t picks,
)
