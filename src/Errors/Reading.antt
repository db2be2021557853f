-- ===== src/Errors/Reading.antt =====
-- internal/errors/errors.go: the methods of *Error, and the functions on any error.
use open_mcp_chain.Prelude.{Bool, false, ◌||◌, Option, none, some, [], ◌∷◌, Text, text_eq, ◌==◌}
use open_mcp_chain.Prelude.Map.{Map, copy_into}
use open_mcp_chain.Errors.Registry.{Code, code_unknown, Severity, info, Registry, attributes_of}
use open_mcp_chain.Errors.Value.{Error, error, GoError, nil, plain, wrapped, unified, typed_nil}

-- The methods of *Error; `none` is a nil receiver.
abbrev pub error_cause : Error → GoError
error_cause (error c m cause meta r a s) = cause

abbrev pub error_code : Error → Code
error_code (error c m cause meta r a s) = c

abbrev pub error_message : Error → Text
error_message (error c m cause meta r a s) = m

abbrev pub or_default {ℓ} : {A : Type ℓ} → Option A → A → A
or_default none d = d
or_default (some a) d = a

unfoldable pub unwrap : Option Error → GoError
unwrap none = nil
unwrap (some e) = error_cause e

abbrev pub same_code : Error → GoError → Bool
same_code e (unified t) = error_code e == error_code t
same_code e _ = false

-- The method `Is`; a nil pointer as target would be dereferenced, and no caller passes one.
unfoldable pub error_is : Option Error → GoError → Bool
error_is none target = false
error_is (some e) target = same_code e target

unfoldable pub code : Option Error → Code
code none = code_unknown
code (some e) = error_code e

unfoldable pub message : Option Error → Text
message none = []
message (some e) = error_message e

unfoldable pub metadata : Option Error → Option (Map Text Text)
metadata none = none
metadata (some (error c m cause none r a s)) = none
metadata (some (error c m cause (some []) r a s)) = none
metadata (some (error c m cause (some (kv ∷ kvs)) r a s)) = some (copy_into [] (kv ∷ kvs))

unfoldable pub retryable : Registry → Option Error → Bool
unfolding attributes_of
retryable registry none = false
retryable registry (some (error c m cause meta r a s)) =
    or_default r (attributes_of registry c).retryable

unfoldable pub should_alert : Registry → Option Error → Bool
unfolding attributes_of
should_alert registry none = false
should_alert registry (some (error c m cause meta r a s)) =
    or_default a (attributes_of registry c).alert

unfoldable pub severity : Registry → Option Error → Severity
unfolding attributes_of
severity registry none = info
severity registry (some (error c m cause meta r a s)) =
    or_default s (attributes_of registry c).severity

-- `errors.As` for the target type *Error; a nil pointer found in the chain is a hit.
unfoldable pub from : GoError → Option (Option Error)
from nil = none
from (plain t) = none
from (wrapped t cause) = from cause
from (unified e) = some (some e)
from typed_nil = some none

-- `errors.Is` with the unified error `t` as target: on the way down the chain the method Is of each *Error is
-- asked, and then what Unwrap returns, which is its cause.
unfoldable mutual
  unfolding error_is

  pub is_error : GoError → Error → Bool
  is_error nil t = false
  is_error (plain s) t = false
  is_error (wrapped s cause) t = is_error cause t
  is_error (unified e) t = is_in_chain e t
  is_error typed_nil t = error_is none (unified t)

  pub is_in_chain : Error → Error → Bool
  is_in_chain (error c m cause meta r a s) t =
      error_is (some (error c m cause meta r a s)) (unified t) || is_error cause t

-- errors.Is for a target that errors.New made, which is told by its text
unfoldable mutual
  pub is_sentinel : Text → GoError → Bool
  is_sentinel text nil = false
  is_sentinel text (plain s) = s == text
  is_sentinel text (wrapped s cause) = is_sentinel text cause
  is_sentinel text (unified e) = is_caused_by text e
  is_sentinel text typed_nil = false

  pub is_caused_by : Text → Error → Bool
  is_caused_by text (error c m cause meta r a s) = is_sentinel text cause

abbrev pub code_or_unknown : Option (Option Error) → Code
code_or_unknown none = code_unknown
code_or_unknown (some none) = code_unknown
code_or_unknown (some (some e)) = error_code e

unfoldable pub code_of : GoError → Code
unfolding from code
code_of err = code_or_unknown (from err)

unfoldable pub retryable_error : Registry → GoError → Bool
unfolding from retryable
retryable_error registry err = elim (from err) [ none ↦ false | some e ↦ retryable registry e ]

unfoldable pub should_alert_error : Registry → GoError → Bool
unfolding from should_alert
should_alert_error registry err = elim (from err) [
  | none ↦ false
  | some e ↦ should_alert registry e
]

unfoldable pub severity_of : Registry → GoError → Severity
unfolding from severity attributes_of
severity_of registry err = elim (from err) [
  | none ↦ (attributes_of registry code_unknown).severity
  | some e ↦ severity registry e
]
