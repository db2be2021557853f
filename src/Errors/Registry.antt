-- ===== src/Errors/Registry.antt =====
-- internal/errors/errors.go: codes, severities, and the registry of attributes.
use open_mcp_chain.Prelude.{Bool, true, false, Option, none, some, [], ◌∷◌, Text, txt, text_eq}
use open_mcp_chain.Prelude.Map.{Map, lookup, insert}

abbrev pub Code : Type 0
Code = Text

-- `unset` is the zero value, the empty string.
pub data Severity : Type 0 where
  info warning critical unset : Severity

pub record Attributes : Type 0 where
  pub message : Text
  pub severity : Severity
  pub retryable : Bool
  pub alert : Bool

abbrev pub Registry : Type 0
Registry = Map Code Attributes

abbrev pub code_unknown : Code
code_unknown = txt "UNKNOWN"

abbrev pub code_invalid_argument : Code
code_invalid_argument = txt "INVALID_ARGUMENT"

abbrev pub code_not_found : Code
code_not_found = txt "NOT_FOUND"

abbrev pub code_conflict : Code
code_conflict = txt "CONFLICT"

abbrev pub code_already_completed : Code
code_already_completed = txt "ALREADY_COMPLETED"

abbrev pub code_retries_exhausted : Code
code_retries_exhausted = txt "RETRIES_EXHAUSTED"

abbrev pub code_initialization_failure : Code
code_initialization_failure = txt "INITIALIZATION_FAILURE"

abbrev pub code_storage_failure : Code
code_storage_failure = txt "STORAGE_FAILURE"

abbrev pub code_queue_failure : Code
code_queue_failure = txt "QUEUE_FAILURE"

abbrev pub code_executor_failure : Code
code_executor_failure = txt "EXECUTOR_FAILURE"

abbrev pub code_timeout : Code
code_timeout = txt "TIMEOUT"

abbrev pub attributes : Text → Severity → Bool → Bool → Attributes
attributes m s r a = record { message = m; severity = s; retryable = r; alert = a }

-- The package variable `registry` before any `Register`.
unfoldable pub initial_registry : Registry
initial_registry =
    (code_unknown, attributes (txt "unknown error") critical false true)
    ∷ (code_invalid_argument, attributes (txt "invalid argument") info false false)
    ∷ (code_not_found, attributes (txt "resource not found") info false false)
    ∷ (code_conflict, attributes (txt "resource conflict") warning false false)
    ∷ (code_already_completed, attributes (txt "resource already completed") info false false)
    ∷ (code_retries_exhausted, attributes (txt "retries exhausted") warning false true)
    ∷ (code_initialization_failure, attributes (txt "service not initialized") warning true true)
    ∷ (code_storage_failure, attributes (txt "storage failure") critical true true)
    ∷ (code_queue_failure, attributes (txt "queue failure") critical true true)
    ∷ (code_executor_failure, attributes (txt "executor failure") warning true true)
    ∷ (code_timeout, attributes (txt "operation timed out") warning true true)
    ∷ []

-- The zero value of `Attributes`, which a map read yields for a missing key.
abbrev pub zero_attributes : Attributes
zero_attributes = attributes [] unset false false

unfoldable pub register : Code → Attributes → Registry → Registry
register code attr registry = insert code attr registry

abbrev pub or_zero : Option Attributes → Attributes
or_zero none = zero_attributes
or_zero (some attr) = attr

abbrev pub or_fallback : Option Attributes → Option Attributes → Attributes
or_fallback (some attr) fallback = attr
or_fallback none fallback = or_zero fallback

unfoldable pub attributes_of : Registry → Code → Attributes
attributes_of registry code = or_fallback (lookup code registry) (lookup code_unknown registry)
