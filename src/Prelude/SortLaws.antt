-- ===== src/Prelude/SortLaws.antt =====
-- sort.Slice by a strict weak order: the result is in order, holds the elements of the input, and does
-- not depend on the order of the input where the order tells the elements apart.
use mathlib.Core.Path.{◌≡◌, refl, ap, ◌∙◌}
use mathlib.Core.Bool.{Bool, true, false, not}
use mathlib.Core.List.{List, [], ◌∷◌}
use mathlib.Core.Logic.{inl, inr}
use native.Mathlib.Omega.{arith}
use open_mcp_chain.Prelude.Tests.{Bool-cases}
use open_mcp_chain.Prelude.Lists.{All}
use open_mcp_chain.Prelude.Sort.{insert_by, sort_slice}
use open_mcp_chain.Prelude.Shuffle.{
  Shuffle, none_left, keep, swap, chain, Shuffle-refl, Shuffle-All,
}

pub record IsStrict {ℓ} {A : Type ℓ} (less : A → A → Bool) : Type ℓ where
  pub asym : (x y : A) → less x y ≡ true → less y x ≡ false
  pub through : (x y z : A) → less x y ≡ false → less y z ≡ false → less x z ≡ false

module _ {ℓ} {A : Type ℓ} (less : A → A → Bool) where
  -- Every element is at most each one behind it.
  abbrev pub IsSorted : List A → Type ℓ
  IsSorted [] = Unit
  IsSorted (x ∷ xs) = All (λ y. less y x ≡ false) xs × IsSorted xs

  -- The order tells the two elements apart.
  abbrev pub IsApart : A → A → Type 0
  IsApart x y = less x y ≡ not (less y x)

  abbrev pub IsDistinct : List A → Type 0
  IsDistinct [] = Unit
  IsDistinct (x ∷ xs) = All (IsApart x) xs × IsDistinct xs

  insert_by-All {κ} :
      (P : A → Type κ) (x : A) (l : List A) → P x → All P l → All P (insert_by less x l)
  unfolding insert_by
  insert_by-All P x [] h hs = (h, tt)
  insert_by-All P x (y ∷ ys) h (h', hs) = elim (Bool-cases (less y x)) [
    | inl before ↦ rw before (h', insert_by-All P x ys h hs)
    | inr after ↦ rw after (h, (h', hs))
  ]

  pub insert_by-Shuffle : (x : A) (l : List A) → Shuffle (x ∷ l) (insert_by less x l)
  unfolding insert_by
  insert_by-Shuffle x [] = Shuffle-refl _
  insert_by-Shuffle x (y ∷ ys) = elim (Bool-cases (less y x)) [
    | inl before ↦ rw before (chain (swap x y ys) (keep y (insert_by-Shuffle x ys)))
    | inr after ↦ rw after (Shuffle-refl _)
  ]

  pub sort_slice-Shuffle : (l : List A) → Shuffle l (sort_slice less l)
  unfolding sort_slice
  sort_slice-Shuffle [] = none_left
  sort_slice-Shuffle (x ∷ xs) =
      chain (keep x (sort_slice-Shuffle xs)) (insert_by-Shuffle x (sort_slice less xs))

  IsApart-symm : (x y : A) → IsApart x y → IsApart y x
  IsApart-symm x y h = ground arith

  Shuffle-IsDistinct : {xs ys : List A} → Shuffle xs ys → IsDistinct xs → IsDistinct ys
  Shuffle-IsDistinct none_left d = d
  Shuffle-IsDistinct (keep x s) (h, d) = (Shuffle-All (IsApart x) s h, Shuffle-IsDistinct s d)
  Shuffle-IsDistinct (swap x y xs) ((xy, hx), (hy, d)) = ((IsApart-symm x y xy, hy), (hx, d))
  Shuffle-IsDistinct (chain s t) d = Shuffle-IsDistinct t (Shuffle-IsDistinct s d)

  insert_by-first :
      (x : A) (xs : List A) → All (λ y. less y x ≡ false) xs → insert_by less x xs ≡ x ∷ xs
  unfolding insert_by
  insert_by-first x [] h = refl
  insert_by-first x (y ∷ ys) (h, hs) = rw h refl

  -- Sorting leaves a sorted list as it is.
  pub sort_slice_fixed : (l : List A) → IsSorted l → sort_slice less l ≡ l
  unfolding sort_slice
  sort_slice_fixed [] s = refl
  sort_slice_fixed (x ∷ xs) (h, s) = rw (sort_slice_fixed xs s) (insert_by-first x xs h)

module _ {ℓ} {A : Type ℓ} (less : A → A → Bool) (strict : IsStrict less) where
  All-weaken :
      (x y : A) (zs : List A)
      → less x y ≡ false
      → All (λ z. less z x ≡ false) zs
      → All (λ z. less z y ≡ false) zs
  All-weaken x y [] h hs = tt
  All-weaken x y (z ∷ zs) h (h', hs) = (strict.through z x y h' h, All-weaken x y zs h hs)

  insert_by-IsSorted : (x : A) (l : List A) → IsSorted less l → IsSorted less (insert_by less x l)
  unfolding insert_by
  insert_by-IsSorted x [] s = (tt, tt)
  insert_by-IsSorted x (y ∷ ys) (h, s) = elim (Bool-cases (less y x)) [
    | inl before ↦ rw before (
      insert_by-All less (λ z. less z y ≡ false) x ys (strict.asym y x before) h,
      insert_by-IsSorted x ys s,
    )
    | inr after ↦ rw after ((after, All-weaken y x ys after h), (h, s))
  ]

  pub sort_slice-IsSorted : (l : List A) → IsSorted less (sort_slice less l)
  unfolding sort_slice
  sort_slice-IsSorted [] = tt
  sort_slice-IsSorted (x ∷ xs) = insert_by-IsSorted x (sort_slice less xs) (sort_slice-IsSorted xs)

  insert_by_comm :
      (x y : A) (l : List A)
      → IsApart less x y
      → insert_by less x (insert_by less y l) ≡ insert_by less y (insert_by less x l)
  unfolding insert_by
  insert_by_comm x y [] h = ground arith
  insert_by_comm x y (z ∷ zs) h =
      ground (arith, insert_by_comm x y zs h, strict.through z x y, strict.through z y x)

  pub sort_slice_unique :
      {xs ys : List A}
      → Shuffle xs ys
      → IsDistinct less xs
      → sort_slice less xs ≡ sort_slice less ys
  unfolding sort_slice
  sort_slice_unique none_left d = refl
  sort_slice_unique (keep x s) (h, d) = ap (insert_by less x) (sort_slice_unique s d)
  sort_slice_unique (swap x y xs) ((h, hx), d) = insert_by_comm x y (sort_slice less xs) h
  sort_slice_unique (chain s t) d =
      sort_slice_unique s d ∙ sort_slice_unique t (Shuffle-IsDistinct less s d)
