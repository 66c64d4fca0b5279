-- ===== src/Shared/Lists.antt =====
-- Lists with lengths and positions in the native numbers, and predicates over them.
use mathlib.Core.Logic.{inl, inr}
use mathlib.Core.List.{append-nil}
use Prim.Native.Nat.{ℕ, zero, suc, ◌+◌, ◌-◌, ◌≤◌}
use mathlib.Core.Path.{◌≡◌, refl, ap, sym, ◌∙◌}
use mathlib.Core.Option.{Option, none, some}
use mathlib.Core.List.{List, [], ◌∷◌, ◌++◌}
use native.Mathlib.Omega.{arith}
use go_agent_wrapper.Shared.Tests.{leb, if◌then◌else◌, Bool-cases}

module _ {ℓ} {A : Type ℓ} where
  abbrev pub length : List A → ℕ
  length [] = 0
  length (x ∷ xs) = suc (length xs)

  abbrev pub get_elem? : List A → ℕ → Option A
  get_elem? [] i = none
  get_elem? (x ∷ xs) zero = some x
  get_elem? (x ∷ xs) (suc i) = get_elem? xs i

  -- A write out of bounds changes nothing.
  abbrev pub set : List A → ℕ → A → List A
  set [] i v = []
  set (x ∷ xs) zero v = v ∷ xs
  set (x ∷ xs) (suc i) v = x ∷ set xs i v

  abbrev pub drop : ℕ → List A → List A
  drop zero xs = xs
  drop (suc n) [] = []
  drop (suc n) (x ∷ xs) = drop n xs

  abbrev pub take : ℕ → List A → List A
  take zero xs = []
  take (suc n) [] = []
  take (suc n) (x ∷ xs) = x ∷ take n xs

  abbrev pub get_last? : List A → Option A
  get_last? [] = none
  get_last? (x ∷ []) = some x
  get_last? (x ∷ y ∷ ys) = get_last? (y ∷ ys)

  -- `s[len(s)-n:]` where s is longer than n, and s itself elsewhere: the last n items.
  unfoldable pub keep_last : ℕ → List A → List A
  keep_last n xs = if leb (length xs) n then xs else drop (length xs - n) xs

  pub length-append : (xs ys : List A) → length (xs ++ ys) ≡ length xs + length ys
  length-append [] ys = omega arith
  length-append (x ∷ xs) ys = omega (arith, length-append xs ys)

  pub length-set : (xs : List A) (i : ℕ) (v : A) → length (set xs i v) ≡ length xs
  length-set [] i v = refl
  length-set (x ∷ xs) zero v = refl
  length-set (x ∷ xs) (suc i) v = omega (arith, length-set xs i v)

  pub length-drop : (n : ℕ) (xs : List A) → length (drop n xs) ≡ length xs - n
  length-drop zero xs = omega arith
  length-drop (suc n) [] = omega arith
  length-drop (suc n) (x ∷ xs) = omega (arith, length-drop n xs)

  pub length-keep_last : (n : ℕ) (xs : List A) → length (keep_last n xs) ≤ n
  unfolding keep_last
  length-keep_last n xs = ground (arith, length-drop (length xs - n) xs)

  -- A predicate on every item; it computes to a tuple, which the tactics read and build.
  abbrev pub All {κ} : (A → Type κ) → List A → Type κ
  All P [] = Unit
  All P (x ∷ xs) = P x × All P xs

  pub All-append {κ} :
      (P : A → Type κ) (front back : List A) → All P front → All P back → All P (front ++ back)
  All-append P [] back of_front of_back = of_back
  All-append P (x ∷ front) back (here, there) of_back =
      (here, All-append P front back there of_back)

  pub All-drop {κ} : (P : A → Type κ) (n : ℕ) (xs : List A) → All P xs → All P (drop n xs)
  All-drop P zero xs h = h
  All-drop P (suc n) [] h = h
  All-drop P (suc n) (x ∷ xs) h = All-drop P n xs h.1

  drop-short_append : (n : ℕ) (xs ys : List A) → n ≤ length xs → drop n xs ++ ys ≡ drop n (xs ++ ys)
  drop-short_append zero xs ys le = refl
  drop-short_append (suc n) [] ys le = let impossible : ⊥ = omega (arith, le) in absurd impossible
  drop-short_append (suc n) (x ∷ xs) ys le = drop-short_append n xs ys (omega (arith, le))

  drop-drop : (n m k : ℕ) (xs : List A) → k ≡ m + n → drop n (drop m xs) ≡ drop k xs
  drop-drop n zero k xs e = let same : k ≡ n = omega (arith, e) in rw same refl
  drop-drop n (suc m) zero xs e = let impossible : ⊥ = omega (arith, e) in absurd impossible
  drop-drop zero (suc m) (suc k) [] e = refl
  drop-drop (suc n) (suc m) (suc k) [] e = refl
  drop-drop n (suc m) (suc k) (x ∷ xs) e = drop-drop n m k xs (omega (arith, e))

  keep_last-drop : (n : ℕ) (xs : List A) → keep_last n xs ≡ drop (length xs - n) xs
  unfolding keep_last
  keep_last-drop n xs = elim (Bool-cases (leb (length xs) n)) [
    | inl short ↦
        let none_left : length xs - n ≡ 0 = ground (arith, short) in rw (short, none_left) refl
    | inr long ↦ rw long refl
  ]

  -- Cutting to the last n items before more come makes no difference to a later cut.
  pub keep_last-append :
      (n : ℕ) (xs ys : List A) → keep_last n (keep_last n xs ++ ys) ≡ keep_last n (xs ++ ys)
  keep_last-append n xs ys =
      let k = length xs - n in
      let cut : keep_last n xs ++ ys ≡ drop k (xs ++ ys) =
        rw (keep_last-drop n xs) (drop-short_append k xs ys (omega arith)) in
      ap (keep_last n) cut
      ∙ (keep_last-drop n (drop k (xs ++ ys))
          ∙ (drop-drop (length (drop k (xs ++ ys)) - n) k (length (xs ++ ys) - n) (xs ++ ys)
                (omega (arith, length-drop k (xs ++ ys), length-append xs ys))
              ∙ sym (keep_last-drop n (xs ++ ys))))

  pub keep_last_idem : (n : ℕ) (xs : List A) → keep_last n (keep_last n xs) ≡ keep_last n xs
  keep_last_idem n xs =
      ap (keep_last n) (sym (append-nil (keep_last n xs)))
      ∙ (keep_last-append n xs [] ∙ ap (keep_last n) (append-nil xs))
