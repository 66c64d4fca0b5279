-- ===== src/Shared/Assoc.antt =====
-- Maps with byte-string keys, as association lists with at most one entry for a key.
use mathlib.Core.Path.{◌≡◌, refl}
use mathlib.Core.Option.{Option, none, some}
use mathlib.Core.List.{List, [], ◌∷◌}
use native.Mathlib.Omega.{arith}
use go_agent_wrapper.Shared.Tests.{if◌then◌else◌}
use go_agent_wrapper.Shared.Text.{Bytes, ◌==◌, ==_iff}

module _ {ℓ} {V : Type ℓ} where
  -- m[k]
  unfoldable pub lookup : Bytes → List (Bytes × V) → Option V
  lookup key [] = none
  lookup key ((name, found) ∷ table) = if name == key then some found else lookup key table

  -- delete(m, k)
  unfoldable pub delete : Bytes → List (Bytes × V) → List (Bytes × V)
  delete key [] = []
  delete key ((name, found) ∷ table) =
      let rest = delete key table in if name == key then rest else (name, found) ∷ rest

  -- m[k] = v
  unfoldable pub insert : Bytes → V → List (Bytes × V) → List (Bytes × V)
  insert key new [] = (key, new) ∷ []
  insert key new ((name, found) ∷ table) =
      if name == key then (key, new) ∷ table else (name, found) ∷ insert key new table

  pub lookup-insert :
      (key other : Bytes) (new : V) (table : List (Bytes × V))
      → lookup other (insert key new table)
        ≡ (if key == other then some new else lookup other table)
  unfolding lookup insert
  lookup-insert key other new [] = refl
  lookup-insert key other new ((name, found) ∷ table) =
      let rest = lookup-insert key other new table in
      ground (arith, rest, ==_iff name other, ==_iff key other, ==_iff name key)

  pub lookup-delete :
      (k j : Bytes) (m : List (Bytes × V))
      → lookup j (delete k m) ≡ (if k == j then none else lookup j m)
  unfolding lookup delete
  lookup-delete k j [] = ground arith
  lookup-delete k j ((i, w) ∷ m) =
      ground (arith, ==_iff k j, ==_iff i k, ==_iff i j, lookup-delete k j m)
