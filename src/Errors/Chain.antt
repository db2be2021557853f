-- ===== src/Errors/Chain.antt =====
-- What errors.Is and From find in a chain of wrapped errors.
use open_mcp_chain.Prelude.{
  ℕ, zero, suc, Bool, true, false, ◌≡◌, refl, ap, ◌↔◌, none, some, Text, text_eq, text_beq_iff,
  Bool-cases, inl, inr, arith,
}
use open_mcp_chain.Errors.Value.{Error, error, GoError, nil, plain, wrapped, unified, typed_nil}
use open_mcp_chain.Errors.Reading.{error_code, error_is, unwrap, is_error, is_in_chain, from}

-- errors.Unwrap of any error, and what it gives after a number of steps.
abbrev pub unwrap_once : GoError → GoError
unwrap_once nil = nil
unwrap_once (plain s) = nil
unwrap_once (wrapped s cause) = cause
unwrap_once (unified e) = unwrap (some e)
unwrap_once typed_nil = unwrap none

abbrev pub unwraps : ℕ → GoError → GoError
unwraps zero err = err
unwraps (suc n) err = unwraps n (unwrap_once err)

-- A unified error of the chain, so many steps down.
abbrev pub IsAt : ℕ → GoError → Error → Type 0
IsAt n err e = unwraps n err ≡ unified e

abbrev pub HasCode : GoError → Text → Type 0
HasCode err c = (n : ℕ) × (e : Error) × IsAt n err e × (error_code e ≡ c)

unwraps-nil : (n : ℕ) → unwraps n nil ≡ nil
unwraps-nil zero = refl
unwraps-nil (suc n) = unwraps-nil n

error_is-code :
    (e t : Error) → (error_is (some e) (unified t) ≡ true) ↔ (error_code e ≡ error_code t)
unfolding error_is
error_is-code e t = text_beq_iff (error_code e) (error_code t)

HasCode-down : (err : GoError) (c : Text) → HasCode (unwrap_once err) c → HasCode err c
HasCode-down err c (n, e, at, same) = (suc n, e, at, same)

mutual
  unfolding is_error unwrap error_is

  is_error-HasCode :
      (err : GoError) (t : Error) → is_error err t ≡ true → HasCode err (error_code t)
  is_error-HasCode nil t h = absurd (cc)
  is_error-HasCode (plain s) t h = absurd (cc)
  is_error-HasCode (wrapped s cause) t h =
      HasCode-down (wrapped s cause) (error_code t) (is_error-HasCode cause t h)
  is_error-HasCode (unified e) t h = is_in_chain-HasCode e t h
  is_error-HasCode typed_nil t h = absurd (cc)

  is_in_chain-HasCode : (e t : Error) → is_in_chain e t ≡ true → HasCode (unified e) (error_code t)
  is_in_chain-HasCode (error c m cause meta r a s) t h =
      let e : Error = error c m cause meta r a s in
      elim (Bool-cases (error_is (some e) (unified t))) [
        | inl same ↦ (0, e, refl, (error_is-code e t).0 same)
        | inr other ↦
            HasCode-down (unified e) (error_code t) (is_error-HasCode cause t (ground arith))
      ]

is_error_self : (e t : Error) → error_code e ≡ error_code t → is_error (unified e) t ≡ true
unfolding is_error
is_error_self (error c m cause meta r a s) t same =
    rw ((error_is-code (error c m cause meta r a s) t).1 same) refl

-- A chain without a further error has no unified error either.
nil-IsAt : (n : ℕ) (e : Error) → ¬ IsAt n nil e
nil-IsAt n e at = let none_left = unwraps-nil n in absurd (cc)

IsAt-is_error :
    (n : ℕ) (err : GoError) (e t : Error)
    → IsAt n err e
    → error_code e ≡ error_code t
    → is_error err t ≡ true
unfolding is_error unwrap
IsAt-is_error zero err e t at same = rw at (is_error_self e t same)
IsAt-is_error (suc n) nil e t at same = absurd (nil-IsAt n e at)
IsAt-is_error (suc n) (plain s) e t at same = absurd (nil-IsAt n e at)
IsAt-is_error (suc n) (wrapped s cause) e t at same = IsAt-is_error n cause e t at same
IsAt-is_error (suc n) (unified (error c m cause meta r a s)) e t at same =
    rw (IsAt-is_error n cause e t at same) (ground arith)
IsAt-is_error (suc n) typed_nil e t at same = absurd (nil-IsAt n e at)

abbrev pub is_unified : GoError → Bool
is_unified (unified e) = true
is_unified _ = false

-- None of the first errors of the chain is unified.
abbrev pub NoneBefore : ℕ → GoError → Type 0
NoneBefore zero err = Unit
NoneBefore (suc n) err = (is_unified err ≡ false) × NoneBefore n (unwrap_once err)

-- The unified error that is met first on the way down the chain.
abbrev pub IsFirst : GoError → Error → Type 0
IsFirst err e = (n : ℕ) × IsAt n err e × NoneBefore n err

from-IsFirst : (err : GoError) (e : Error) → from err ≡ some (some e) → IsFirst err e
unfolding from
from-IsFirst nil e h = absurd (cc)
from-IsFirst (plain s) e h = absurd (cc)
from-IsFirst (wrapped s cause) e h =
    let (n, at, before) = from-IsFirst cause e h in (suc n, at, (refl, before))
from-IsFirst (unified e') e h = (0, cc, tt)
from-IsFirst typed_nil e h = absurd (cc)

IsFirst-from :
    (n : ℕ) (err : GoError) (e : Error) → IsAt n err e → NoneBefore n err → from err ≡ some (some e)
unfolding from unwrap
IsFirst-from zero err e at h = ap from at
IsFirst-from (suc n) nil e at h = absurd (nil-IsAt n e at)
IsFirst-from (suc n) (plain s) e at h = absurd (nil-IsAt n e at)
IsFirst-from (suc n) (wrapped s cause) e at (_, h) = IsFirst-from n cause e at h
IsFirst-from (suc n) (unified e') e at (h, _) = absurd (cc)
IsFirst-from (suc n) typed_nil e at h = absurd (nil-IsAt n e at)

-- For every error: errors.Is with a unified target holds exactly when a number of calls of errors.Unwrap leads
-- to a unified error that has the code of the target; and From finds a unified error exactly when it is the
-- first one that the calls of errors.Unwrap lead to.
pub is_error-unwraps :
    (err : GoError) (t e : Error)
    → ((is_error err t ≡ true) ↔ HasCode err (error_code t))
      × ((from err ≡ some (some e)) ↔ IsFirst err e)
is_error-unwraps err t e = (
  (is_error-HasCode err t, λ (n, e', at, same). IsAt-is_error n err e' t at same),
  (from-IsFirst err e, λ (n, at, h). IsFirst-from n err e at h),
)
