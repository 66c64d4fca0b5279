-- ===== src/Shared/Table.antt =====
-- Maps with numbers for keys, as association lists with at most one entry for a key.
use go_agent_wrapper.Shared.Tests.{if◌then◌else◌, nat_eq}
use Prim.Native.Nat.{ℕ}
use mathlib.Core.Path.{◌≡◌, refl}
use mathlib.Core.Bool.{Bool, false, ◌||◌}
use mathlib.Core.Option.{Option, none, some}
use mathlib.Core.List.{List, [], ◌∷◌}
use native.Mathlib.Omega.{arith}

-- Whether a list of numbers holds one.
unfoldable pub holds : ℕ → List ℕ → Bool
holds n [] = false
holds n (m ∷ ms) = nat_eq m n || holds n ms

-- Without a number.
unfoldable pub remove : ℕ → List ℕ → List ℕ
remove n [] = []
remove n (m ∷ ms) = let rest = remove n ms in if nat_eq m n then rest else m ∷ rest

pub holds-remove :
    (n m : ℕ) (ms : List ℕ) → holds m (remove n ms) ≡ (if nat_eq n m then false else holds m ms)
unfolding holds remove
holds-remove n m [] = ground arith
holds-remove n m (k ∷ ms) = ground (arith, holds-remove n m ms)

module _ {ℓ} {V : Type ℓ} where
  -- m[k]
  unfoldable pub lookup : ℕ → List (ℕ × V) → Option V
  lookup key [] = none
  lookup key ((name, found) ∷ table) = if nat_eq name key then some found else lookup key table

  -- delete(m, k)
  unfoldable pub delete : ℕ → List (ℕ × V) → List (ℕ × V)
  delete key [] = []
  delete key ((name, found) ∷ table) =
      let rest = delete key table in if nat_eq name key then rest else (name, found) ∷ rest

  -- m[k] = v
  unfoldable pub insert : ℕ → V → List (ℕ × V) → List (ℕ × V)
  insert key new [] = (key, new) ∷ []
  insert key new ((name, found) ∷ table) =
      if nat_eq name key then (key, new) ∷ table else (name, found) ∷ insert key new table

  pub lookup-insert :
      (key other : ℕ) (new : V) (table : List (ℕ × V))
      → lookup other (insert key new table)
        ≡ (if nat_eq key other then some new else lookup other table)
  unfolding lookup insert
  lookup-insert key other new [] = refl
  lookup-insert key other new ((name, found) ∷ table) =
      ground (arith, lookup-insert key other new table)

  pub lookup-delete :
      (key other : ℕ) (table : List (ℕ × V))
      → lookup other (delete key table) ≡ (if nat_eq key other then none else lookup other table)
  unfolding lookup delete
  lookup-delete key other [] = ground arith
  lookup-delete key other ((name, found) ∷ table) = ground (arith, lookup-delete key other table)
