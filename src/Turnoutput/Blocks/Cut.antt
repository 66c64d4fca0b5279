-- ===== src/Turnoutput/Blocks/Cut.antt =====
-- cutUTF8 of turnoutput/reducer.go: where a text is cut.
use mathlib.Core.List.{append_assoc, append-nil, reverse-cons}
use go_agent_wrapper.Shared.{
  ℕ, zero, suc, ◌+◌, ◌≤◌, Bytes, is_empty, ◌≡◌, refl, sym, ◌∙◌, ◌⊎◌, inl, inr, Bool, true, ◌||◌, [],
  ◌∷◌, ◌++◌, reverse, length, length-append, ltb, leb, Bool-cases, arith,
}
use go_agent_wrapper.Turnoutput.Blocks.{rune_start, back_up, cut_from, cut_utf8}

-- The bytes left over are none, or begin a character.
abbrev pub starts_rune : Bytes → Bool
starts_rune [] = true
starts_rune (c ∷ s) = ltb c 0x80 || leb 0xC0 c

-- `r` is a cut of `s` at no more than `n` bytes: a prefix, and empty or cut between characters.
abbrev pub IsCut : Bytes → ℕ → Bytes → Type 0
IsCut s n r =
    (rest : Bytes) × (r ++ rest ≡ s)
    × (length r ≤ n)
    × ((is_empty r ≡ true) ⊎ (starts_rune rest ≡ true))

length-reverse : (s : Bytes) → length (reverse s) ≡ length s
length-reverse [] = refl
length-reverse (c ∷ s) =
    rw reverse-cons (omega (arith, length-append (reverse s) (c ∷ []), length-reverse s))

reverse_shift : (c : ℕ) (front s : Bytes) → reverse (c ∷ front) ++ s ≡ reverse front ++ c ∷ s
reverse_shift c front s = simp (reverse-cons, append_assoc)

back_up-IsCut :
    (front : Bytes) (c : ℕ) (s : Bytes)
    → IsCut (reverse front ++ c ∷ s) (length front) (reverse (back_up front c))
unfolding back_up rune_start
back_up-IsCut [] c s = (c ∷ s, refl, omega arith, inl refl)
back_up-IsCut (d ∷ front) c s = elim (Bool-cases (rune_start c)) [
  | inl e ↦ rw e (c ∷ s, refl, omega (arith, length-reverse (d ∷ front)), inr e)
  | inr e ↦ rw e (
      let (rest, whole, short, clean) = back_up-IsCut front d (c ∷ s) in
      (rest, whole ∙ sym (reverse_shift d front (c ∷ s)), omega arith, clean))
]

cut_from-IsCut :
    (front : Bytes) (n : ℕ) (s : Bytes)
    → IsCut (reverse front ++ s) (length front + n) (cut_from front n s)
unfolding cut_from
cut_from-IsCut front n [] = ([], refl, omega (arith, length-reverse front), inr refl)
cut_from-IsCut front zero (c ∷ s) =
    let (rest, whole, short, clean) = back_up-IsCut front c s in (rest, whole, omega arith, clean)
cut_from-IsCut front (suc n) (c ∷ s) =
    let (rest, whole, short, clean) = cut_from-IsCut (c ∷ front) n s in
    (rest, whole ∙ reverse_shift c front s, omega arith, clean)

-- For every text and every bound, cutUTF8 returns a prefix of the text that is no longer than the
-- bound, and that is empty or ends where the rest of the text is empty or begins a character.
pub cut_utf8-IsCut : (s : Bytes) (n : ℕ) → IsCut s n (cut_utf8 s n)
unfolding cut_utf8
cut_utf8-IsCut s n =
    let (rest, whole, short, clean) = cut_from-IsCut [] n s in (rest, whole, omega arith, clean)

pub length-cut_utf8 : (s : Bytes) (n : ℕ) → length (cut_utf8 s n) ≤ n
length-cut_utf8 s n = (cut_utf8-IsCut s n).2

cut_from_whole :
    (front : Bytes) (n : ℕ) (s : Bytes) → length s ≤ n → cut_from front n s ≡ reverse front ++ s
unfolding cut_from
cut_from_whole front n [] h = rw append-nil
cut_from_whole front zero (c ∷ s) h = elim h [ ]
cut_from_whole front (suc n) (c ∷ s) h =
    cut_from_whole (c ∷ front) n s (omega arith) ∙ reverse_shift c front s

-- A text within the bound is kept whole.
pub cut_utf8_whole : (s : Bytes) (n : ℕ) → length s ≤ n → cut_utf8 s n ≡ s
unfolding cut_utf8
cut_utf8_whole s n h = cut_from_whole [] n s h
