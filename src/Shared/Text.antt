-- ===== src/Shared/Text.antt =====
-- Go strings as byte sequences, and what the program uses of package strings.
use Prim.Native.Char.{code}
use Prim.Native.String.{String}
use Prim.Native.Nat.{ℕ, zero, suc, ◌+◌}
use mathlib.Core.Path.{◌≡◌, refl}
use mathlib.Core.Logic.{◌↔◌}
use mathlib.Core.Bool.{Bool, true, false, ◌&&◌, ◌||◌}
use mathlib.Core.List.{List, [], ◌∷◌, reverse}
use native.Mathlib.Omega.{arith}
use go_agent_wrapper.Shared.Tests.{leb, nat_eq, if◌then◌else◌}

-- A Go string: its bytes.
abbrev pub Bytes : Type 0
Bytes = List ℕ

-- The bytes of an ASCII literal.
abbrev pub bytes : String → Bytes
bytes String.[] = []
bytes (String.◌∷◌ c s) = code c ∷ bytes s

abbrev pub is_empty {ℓ} : {A : Type ℓ} → List A → Bool
is_empty [] = true
is_empty (x ∷ xs) = false

infix 50 ◌==◌
unfoldable pub ◌==◌ : Bytes → Bytes → Bool
◌==◌ [] [] = true
◌==◌ [] (y ∷ ys) = false
◌==◌ (x ∷ xs) [] = false
◌==◌ (x ∷ xs) (y ∷ ys) = nat_eq x y && xs == ys

==-sound : (s t : Bytes) → (s == t) ≡ true → s ≡ t
unfolding ◌==◌
==-sound [] [] h = refl
==-sound [] (y ∷ ys) h = cc
==-sound (x ∷ xs) [] h = cc
==-sound (x ∷ xs) (y ∷ ys) h = ground (arith, ==-sound xs ys)

pub ==-refl : (s : Bytes) → (s == s) ≡ true
unfolding ◌==◌
==-refl [] = refl
==-refl (x ∷ xs) = ground (arith, ==-refl xs)

pub ==_iff : (s t : Bytes) → ((s == t) ≡ true) ↔ (s ≡ t)
==_iff s t = (==-sound s t, λ e. rw e (==-refl t))

-- The white space of Unicode at the front of a byte string, in UTF-8: the ASCII blanks, U+0085,
-- U+00A0, U+1680, U+2000 to U+200A, U+2028, U+2029, U+202F, U+205F and U+3000.
is_blank : ℕ → Bool
is_blank c = nat_eq c 32 || (leb 9 c && leb c 13)

is_blank2 : ℕ → ℕ → Bool
is_blank2 a b = nat_eq a 0xC2 && (nat_eq b 0x85 || nat_eq b 0xA0)

is_blank3 : ℕ → ℕ → ℕ → Bool
is_blank3 a b c =
    (nat_eq a 0xE1 && nat_eq b 0x9A && nat_eq c 0x80)
    || (nat_eq a 0xE2
        && nat_eq b 0x80
        && ((leb 0x80 c && leb c 0x8A) || nat_eq c 0xA8 || nat_eq c 0xA9 || nat_eq c 0xAF))
    || (nat_eq a 0xE2 && nat_eq b 0x81 && nat_eq c 0x9F)
    || (nat_eq a 0xE3 && nat_eq b 0x80 && nat_eq c 0x80)

-- How many of the first three bytes are one white-space character: 0 where none starts here.
blank_width : (ℕ → ℕ → Bool) → (ℕ → ℕ → ℕ → Bool) → Bytes → ℕ
unfolding is_blank
blank_width two three [] = 0
blank_width two three (a ∷ []) = if is_blank a then 1 else 0
blank_width two three (a ∷ b ∷ []) = if is_blank a then 1 else if two a b then 2 else 0
blank_width two three (a ∷ b ∷ c ∷ _) =
    if is_blank a then 1 else if two a b then 2 else if three a b c then 3 else 0

-- Drop white-space characters from the front; `pending` counts the bytes left of the current one.
skip_blanks : (ℕ → ℕ → Bool) → (ℕ → ℕ → ℕ → Bool) → ℕ → Bytes → Bytes
unfolding blank_width
skip_blanks two three pending [] = []
skip_blanks two three (suc pending) (a ∷ s) = skip_blanks two three pending s
skip_blanks two three zero (a ∷ s) = elim (blank_width two three (a ∷ s)) [
  | zero ↦ a ∷ s
  | suc w ↦ skip_blanks two three w s
]

unfoldable pub trim_left : Bytes → Bytes
unfolding skip_blanks is_blank2 is_blank3
trim_left s = skip_blanks is_blank2 is_blank3 0 s

-- From the back the bytes of a character come in reverse.
unfoldable pub trim_right : Bytes → Bytes
unfolding skip_blanks is_blank2 is_blank3
trim_right s = reverse (skip_blanks (λ a b. is_blank2 b a) (λ a b c. is_blank3 c b a) 0 (reverse s))

-- strings.TrimSpace
unfoldable pub trim_space : Bytes → Bytes
unfolding trim_left trim_right
trim_space s = trim_right (trim_left s)

-- strings.ToLower: the ASCII letters, and the two characters outside ASCII whose lower case is an
-- ASCII letter (U+0130, to i, and U+212A, to k). Other letters outside ASCII stay as they are.
unfoldable pub to_lower : Bytes → Bytes
to_lower [] = []
to_lower (a ∷ []) = (if leb b'A' a && leb a b'Z' then a + 32 else a) ∷ []
to_lower (a ∷ b ∷ []) =
    if nat_eq a 0xC4 && nat_eq b 0xB0
    then b'i' ∷ []
    else (if leb b'A' a && leb a b'Z' then a + 32 else a) ∷ to_lower (b ∷ [])
to_lower (a ∷ b ∷ c ∷ s) =
    let rest = to_lower (b ∷ c ∷ s) in
    let rest2 = to_lower (c ∷ s) in
    let rest3 = to_lower s in
    if nat_eq a 0xC4 && nat_eq b 0xB0
    then b'i' ∷ rest2
    else if nat_eq a 0xE2 && nat_eq b 0x84 && nat_eq c 0xAA
    then b'k' ∷ rest3
    else (if leb b'A' a && leb a b'Z' then a + 32 else a) ∷ rest

has_prefix : Bytes → Bytes → Bool
has_prefix s [] = true
has_prefix [] (p ∷ ps) = false
has_prefix (c ∷ s) (p ∷ ps) = nat_eq c p && has_prefix s ps

-- strings.HasSuffix
unfoldable pub has_suffix : Bytes → Bytes → Bool
unfolding has_prefix
has_suffix s t = has_prefix (reverse s) (reverse t)

-- strings.Contains
unfoldable pub has_substring : Bytes → Bytes → Bool
unfolding has_prefix
has_substring [] t = is_empty t
has_substring (c ∷ s) t = has_prefix (c ∷ s) t || has_substring s t

skip_quotes : Bytes → Bytes
skip_quotes [] = []
skip_quotes (c ∷ s) = let rest = skip_quotes s in if nat_eq c 34 then rest else c ∷ s

-- strings.Trim(s, `"`)
unfoldable pub trim_quotes : Bytes → Bytes
unfolding skip_quotes
trim_quotes s = reverse (skip_quotes (reverse (skip_quotes s)))

trim_space_test : trim_space (bytes " ok, go ") ≡ bytes "ok, go"
unfolding trim_space
trim_space_test = refl

to_lower_test : to_lower (bytes "AskUser") ≡ bytes "askuser"
unfolding to_lower
to_lower_test = refl

trim_quotes_test : trim_quotes (34 ∷ 55 ∷ 34 ∷ []) ≡ 55 ∷ []
unfolding trim_quotes
trim_quotes_test = refl
