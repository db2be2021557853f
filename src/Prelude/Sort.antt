-- ===== src/Prelude/Sort.antt =====
-- sort.Slice with a `less` function, as insertion sort.
use mathlib.Core.Bool.{Bool}
use mathlib.Core.List.{List, [], ◌∷◌}
use open_mcp_chain.Prelude.Tests.{if◌then◌else◌}

module _ {ℓ} {A : Type ℓ} (less : A → A → Bool) where
  unfoldable pub insert_by : A → List A → List A
  insert_by x [] = x ∷ []
  insert_by x (y ∷ ys) = if less y x then y ∷ insert_by x ys else x ∷ y ∷ ys

  unfoldable pub sort_slice : List A → List A
  unfolding insert_by
  sort_slice [] = []
  sort_slice (x ∷ xs) = insert_by x (sort_slice xs)
