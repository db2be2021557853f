-- ===== src/Prelude/Numerals.antt =====
-- A number read back from its digits, and texts split again where they were joined.
use Prim.Native.Nat.{◌+◌, ◌/◌, ◌%◌}
use open_mcp_chain.Prelude.{
  ℕ, zero, suc, ◌≤◌, ◌≡◌, refl, false, inl, inr, some, [], ◌∷◌, ◌++◌, arith, Text, ltb, eqb, All,
  Bool-cases,
}
use open_mcp_chain.Prelude.Int.{pos}
use open_mcp_chain.Prelude.Parse.{
  digits_value, max_int, atoi, decimal, format_int, split_on, split_once,
}

digits_value-decimal :
    (fuel n : ℕ) (after : Text)
    → n ≤ fuel
    → digits_value 0 (decimal (suc fuel) n after) ≡ digits_value n after
unfolding decimal digits_value
digits_value-decimal zero n after h = ground arith
digits_value-decimal (suc fuel) n after h = elim (Bool-cases (ltb n 10)) [
  | inl small ↦ ground arith
  | inr large ↦
      ground (arith, digits_value-decimal fuel (n / 10) ((b'0' + n % 10) ∷ after) (ground arith))
]

abbrev IsDigitFirst : Text → Type 0
IsDigitFirst [] = ⊥
IsDigitFirst (c ∷ s) = b'0' ≤ c

decimal-IsDigitFirst : (fuel n : ℕ) (after : Text) → IsDigitFirst (decimal (suc fuel) n after)
unfolding decimal
decimal-IsDigitFirst zero n after = elim (Bool-cases (ltb n 10)) [
  | inl small ↦ rw small (omega arith)
  | inr large ↦ rw large (omega arith)
]
decimal-IsDigitFirst (suc fuel) n after = elim (Bool-cases (ltb n 10)) [
  | inl small ↦ rw small (omega arith)
  | inr large ↦ rw large (decimal-IsDigitFirst fuel (n / 10) ((b'0' + n % 10) ∷ after))
]

atoi-digits :
    (s : Text) (n : ℕ)
    → IsDigitFirst s
    → digits_value 0 s ≡ some n
    → n ≤ max_int
    → atoi s ≡ some (pos n)
unfolding atoi
atoi-digits [] n first h small = absurd first
atoi-digits (c ∷ s) n first h small = ground arith

pub atoi-format_int : (n : ℕ) → n ≤ max_int → atoi (format_int n) ≡ some (pos n)
unfolding format_int digits_value
atoi-format_int n small =
    atoi-digits (decimal (suc n) n []) n (decimal-IsDigitFirst n n [])
      (digits_value-decimal n n [] (omega arith)) small

-- The byte does not occur.
abbrev pub Lacks : ℕ → Text → Type 0
Lacks b s = All (λ c. eqb c b ≡ false) s

pub split_on-lacking : (b : ℕ) (s : Text) → Lacks b s → split_on b s ≡ s ∷ []
unfolding split_on
split_on-lacking b [] h = refl
split_on-lacking b (c ∷ s) (other, h) = rw (other, split_on-lacking b s h)

pub split_on-append : (b : ℕ) (s t : Text) → Lacks b s → split_on b (s ++ b ∷ t) ≡ s ∷ split_on b t
unfolding split_on
split_on-append b [] t h = ground arith
split_on-append b (c ∷ s) t (other, h) = rw (other, split_on-append b s t h)

pub split_once-append : (b : ℕ) (s t : Text) → Lacks b s → split_once b (s ++ b ∷ t) ≡ some (s, t)
unfolding split_once
split_once-append b [] t h = ground arith
split_once-append b (c ∷ s) t (other, h) = rw (other, split_once-append b s t h)
