-- ===== src/Prelude/Trim.antt =====
-- Trimming a text twice is trimming it once; what has no blank at either end is not changed.
use Prim.Native.Nat.{ℕ, ◌≤◌}
use mathlib.Core.Path.{◌≡◌, refl, sym, ap, ◌∙◌, subst}
use mathlib.Core.Logic.{inl, inr}
use mathlib.Core.Bool.{false}
use mathlib.Core.List.{[], ◌∷◌, ◌++◌, reverse, reverse-append, reverse-reverse}
use native.Mathlib.Omega.{arith}
use open_mcp_chain.Prelude.Tests.{Bool-cases}
use open_mcp_chain.Prelude.Lists.{length, All}
use open_mcp_chain.Prelude.Strings.{Text, is_empty, is_space, trim_left, trim_space}

trim_left_idem : (s : Text) → trim_left (trim_left s) ≡ trim_left s
unfolding trim_left
trim_left_idem [] = refl
trim_left_idem (c ∷ s) = ground (arith, trim_left_idem s)

length-trim_left : (s : Text) → length (trim_left s) ≤ length s
unfolding trim_left
length-trim_left [] = omega arith
length-trim_left (c ∷ s) = ground (arith, length-trim_left s)

-- What trim_left takes off stands in front.
trimmed_prefix : (s : Text) → (w : Text) × (s ≡ w ++ trim_left s)
unfolding trim_left
trimmed_prefix [] = ([], refl)
trimmed_prefix (c ∷ s) = elim (Bool-cases (is_space c)) [
  | inl space ↦ let (w, e) = trimmed_prefix s in (c ∷ w, rw space (ap (◌∷◌ c) e))
  | inr other ↦ ([], rw other)
]

-- A text that begins with no space keeps that in each of its beginnings.
trim_left-prefix : (p q : Text) → trim_left (p ++ q) ≡ p ++ q → trim_left p ≡ p
unfolding trim_left
trim_left-prefix [] q h = refl
trim_left-prefix (c ∷ p) q h = elim (Bool-cases (is_space c)) [
  | inl space ↦ absurd (omega (arith, length-trim_left (p ++ q), ap length (rw space at h)))
  | inr other ↦ rw other
]

pub trim_space_idem : (s : Text) → trim_space (trim_space s) ≡ trim_space s
unfolding trim_space
trim_space_idem s =
    let t = trim_left s in
    let u = trim_left (reverse t) in
    let (w, e) = trimmed_prefix (reverse t) in
    let split : t ≡ reverse u ++ reverse w =
      sym (reverse-reverse t) ∙ ap reverse e ∙ reverse-append w u in
    let kept : trim_left (reverse u) ≡ reverse u =
      trim_left-prefix (reverse u) (reverse w)
        (subst (λ (v : Text). trim_left v ≡ v) split (trim_left_idem s)) in
    rw kept (rw reverse-reverse (ap reverse (trim_left_idem (reverse t))))

abbrev pub IsBlankless : Text → Type 0
IsBlankless s = All (λ c. is_space c ≡ false) s

pub append-IsBlankless : (s t : Text) → IsBlankless s → IsBlankless t → IsBlankless (s ++ t)
append-IsBlankless [] t hs ht = ht
append-IsBlankless (c ∷ s) t (h, hs) ht = (h, append-IsBlankless s t hs ht)

reverse-IsBlankless : (s : Text) → IsBlankless s → IsBlankless (reverse s)
reverse-IsBlankless [] h = tt
reverse-IsBlankless (c ∷ s) (h, hs) =
    subst IsBlankless (sym (reverse-append (c ∷ []) s))
      (append-IsBlankless (reverse s) (c ∷ []) (reverse-IsBlankless s hs) (h, tt))

trim_left-blankless :
    (s t : Text) → IsBlankless s → is_empty s ≡ false → trim_left (s ++ t) ≡ s ++ t
unfolding trim_left
trim_left-blankless [] t h full = ground arith
trim_left-blankless (c ∷ s) t (h, hs) full = rw h

is_empty-append : (s : Text) (c : ℕ) → is_empty (s ++ c ∷ []) ≡ false
is_empty-append [] c = refl
is_empty-append (d ∷ s) c = refl

is_empty-reverse : (s : Text) → is_empty s ≡ false → is_empty (reverse s) ≡ false
is_empty-reverse [] h = h
is_empty-reverse (c ∷ s) h =
    subst (λ (v : Text). is_empty v ≡ false) (sym (reverse-append (c ∷ []) s))
      (is_empty-append (reverse s) c)

-- A text that begins with no blank and ends with some others.
pub trim_space-blankless :
    (p t : Text)
    → IsBlankless t
    → is_empty t ≡ false
    → trim_left (p ++ t) ≡ p ++ t
    → trim_space (p ++ t) ≡ p ++ t
unfolding trim_space
trim_space-blankless p t h full front =
    rw
      (
        front,
        reverse-append p t,
        trim_left-blankless (reverse t) (reverse p) (reverse-IsBlankless t h)
            (is_empty-reverse t full),
        sym (reverse-append p t),
      )
      (reverse-reverse (p ++ t))

pub trim_space_blankless : (t : Text) → IsBlankless t → is_empty t ≡ false → trim_space t ≡ t
unfolding trim_left
trim_space_blankless (c ∷ t) (h, ht) full = trim_space-blankless [] (c ∷ t) (h, ht) full (rw h)
trim_space_blankless [] h full = ground arith
