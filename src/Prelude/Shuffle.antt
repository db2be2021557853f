-- ===== src/Prelude/Shuffle.antt =====
-- Two lists with the same elements, as often: the orders in which `range` may visit one map.
use mathlib.Core.Bool.{Bool}
use mathlib.Core.List.{List, [], ◌∷◌, map}
use open_mcp_chain.Prelude.Tests.{Bool-cases}
use open_mcp_chain.Prelude.Lists.{keep_if, All}
use mathlib.Core.Logic.{inl, inr}

pub data Shuffle {ℓ} {A : Type ℓ} : List A → List A → Type ℓ where
  none_left : Shuffle [] []
  keep : {xs ys : List A} (x : A) → Shuffle xs ys → Shuffle (x ∷ xs) (x ∷ ys)
  swap : (x y : A) (xs : List A) → Shuffle (x ∷ y ∷ xs) (y ∷ x ∷ xs)
  chain : {xs ys zs : List A} → Shuffle xs ys → Shuffle ys zs → Shuffle xs zs

pub Shuffle-refl {ℓ} : {A : Type ℓ} (xs : List A) → Shuffle xs xs
Shuffle-refl [] = none_left
Shuffle-refl (x ∷ xs) = keep x (Shuffle-refl xs)

pub Shuffle-map {ℓ κ} :
    {A : Type ℓ} {B : Type κ} (f : A → B) {xs ys : List A}
    → Shuffle xs ys
    → Shuffle (map f xs) (map f ys)
Shuffle-map f none_left = none_left
Shuffle-map f (keep x s) = keep (f x) (Shuffle-map f s)
Shuffle-map f (swap x y xs) = swap (f x) (f y) (map f xs)
Shuffle-map f (chain s t) = chain (Shuffle-map f s) (Shuffle-map f t)

pub Shuffle-keep_if {ℓ} :
    {A : Type ℓ} (p : A → Bool) {xs ys : List A}
    → Shuffle xs ys
    → Shuffle (keep_if p xs) (keep_if p ys)
Shuffle-keep_if p none_left = none_left
Shuffle-keep_if p (keep x s) = elim (Bool-cases (p x)) [
  | inl good ↦ rw good (keep x (Shuffle-keep_if p s))
  | inr bad ↦ rw bad (Shuffle-keep_if p s)
]
Shuffle-keep_if p (swap x y xs) = elim (Bool-cases (p x)) [
  | inl good ↦ elim (Bool-cases (p y)) [
    | inl good' ↦ rw (good, good') (swap x y (keep_if p xs))
    | inr bad ↦ rw (good, bad) (Shuffle-refl _)
  ]
  | inr bad ↦ rw bad (Shuffle-refl _)
]
Shuffle-keep_if p (chain s t) = chain (Shuffle-keep_if p s) (Shuffle-keep_if p t)

pub Shuffle-All {ℓ κ} :
    {A : Type ℓ} (P : A → Type κ) {xs ys : List A} → Shuffle xs ys → All P xs → All P ys
Shuffle-All P none_left h = h
Shuffle-All P (keep x s) (h, hs) = (h, Shuffle-All P s hs)
Shuffle-All P (swap x y xs) (h, (h', hs)) = (h', (h, hs))
Shuffle-All P (chain s t) h = Shuffle-All P t (Shuffle-All P s h)
