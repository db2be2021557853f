-- ===== src/Prelude/Map.antt =====
-- Go's maps as association lists. The list order stands for one order in which `range` may visit
-- the entries; what depends on it is proved not to matter where the program ranges over a map.
use mathlib.Core.Path.{◌≡◌, refl, sym, ◌∙◌}
use mathlib.Core.Bool.{false}
use mathlib.Core.Logic.{◌⊎◌, inl, inr}
use mathlib.Core.Option.{Option, none, some}
use mathlib.Core.List.{List, [], ◌∷◌}
use native.Mathlib.Omega.{arith}
use open_mcp_chain.Prelude.Tests.{Eq, ◌==◌, Bool-cases, if◌then◌else◌}

abbrev pub Map {ℓ κ} : Type ℓ → Type κ → Type (ℓ ⊔ κ)
Map K V = List (K × V)

module _ {ℓ κ} {K : Type ℓ} {V : Type κ} ⦃e : Eq K⦄ where
  -- v, ok := m[k]
  unfoldable pub lookup : K → Map K V → Option V
  lookup key [] = none
  lookup key ((held, value) ∷ rest) = if held == key then some value else lookup key rest

  -- m[k] = v
  unfoldable pub insert : K → V → Map K V → Map K V
  insert key value [] = (key, value) ∷ []
  insert key value ((held, old) ∷ rest) =
      if held == key then (held, value) ∷ rest else (held, old) ∷ insert key value rest

  pub lookup-insert :
      (key asked : K) (value : V) (m : Map K V)
      → lookup asked (insert key value m) ≡ (if key == asked then some value else lookup asked m)
  unfolding lookup insert
  lookup-insert key asked value [] = refl
  lookup-insert key asked value ((held, old) ∷ rest) = ground (
    arith,
    lookup-insert key asked value rest,
    e.beq_iff held key,
    e.beq_iff held asked,
    e.beq_iff key asked,
  )

  pub lookup-insert_self : (k : K) (v : V) (m : Map K V) → lookup k (insert k v m) ≡ some v
  lookup-insert_self k v m = ground (arith, lookup-insert k k v m, e.beq_iff k k)

  pub lookup-insert_ne :
      (k j : K) (v : V) (m : Map K V) → (k == j) ≡ false → lookup j (insert k v m) ≡ lookup j m
  lookup-insert_ne k j v m h = ground (arith, lookup-insert k j v m)

  -- No key occurs twice.
  abbrev pub IsUnique : Map K V → Type κ
  IsUnique [] = Unit
  IsUnique ((k, v) ∷ m) = (lookup k m ≡ none) × IsUnique m

  pub insert-IsUnique : (k : K) (v : V) (m : Map K V) → IsUnique m → IsUnique (insert k v m)
  unfolding lookup insert
  insert-IsUnique k v [] h = (refl, tt)
  insert-IsUnique k v ((j, w) ∷ m) (fresh, rest) = elim (Bool-cases (j == k)) [
    | inl same ↦ rw same (fresh, rest)
    | inr other ↦ rw other (
      ground (arith, lookup-insert k j v m, e.beq_iff k j, e.beq_iff j k),
      insert-IsUnique k v m rest,
    )
  ]

  -- A new map filled by `for k, v := range m { c[k] = v }`, from what `c` holds already.
  unfoldable pub copy_into : Map K V → Map K V → Map K V
  copy_into c [] = c
  copy_into c ((k, v) ∷ m) = copy_into (insert k v c) m

module _ {ℓ κ} {K : Type ℓ} {V : Type κ} ⦃e : Eq K⦄ where
  -- What a map holds after a write is the value written, at its key, or was there before.
  pub lookup-insert_cases :
      (k j : K) (v u : V) (m : Map K V)
      → lookup j (insert k v m) ≡ some u
      → ((k ≡ j) × (v ≡ u)) ⊎ (lookup j m ≡ some u)
  lookup-insert_cases k j v u m h = elim (Bool-cases (k == j)) [
    | inl same ↦ inl ((e.beq_iff k j).0 same, ground (arith, lookup-insert k j v m))
    | inr other ↦ inr (sym (lookup-insert_ne k j v m other) ∙ h)
  ]
