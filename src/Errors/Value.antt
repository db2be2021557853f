-- ===== src/Errors/Value.antt =====
-- internal/errors/errors.go: the error values, how they are built and printed.
use open_mcp_chain.Prelude.{
  Bool, true, false, Option, none, some, List, [], ◌∷◌, ◌++◌, Text, txt, text_eq, is_empty,
  if◌then◌else◌,
}
use open_mcp_chain.Prelude.Map.{Map, insert}
use open_mcp_chain.Errors.Registry.{Code, Severity, Registry, attributes_of}

-- `plain` is an error of another type without a cause, with its text; `wrapped` one that unwraps to
-- its cause, as of fmt.Errorf with %w; `typed_nil` is a nil *Error in a non-nil interface value.
mutual
  pub data Error : Type 0 where
    error :
        Code
        → Text
        → GoError
        → Option (Map Text Text)
        → Option Bool
        → Option Bool
        → Option Severity
        → Error

  pub data GoError : Type 0 where
    nil : GoError
    plain : Text → GoError
    wrapped : Text → GoError → GoError
    unified : Error → GoError
    typed_nil : GoError

abbrev pub is_nil : GoError → Bool
is_nil nil = true
is_nil _ = false

-- func(*Error)
abbrev pub ErrorOption : Type 0
ErrorOption = Error → Error

abbrev or_empty_map : Option (Map Text Text) → Map Text Text
or_empty_map none = []
or_empty_map (some m) = m

unfoldable pub with_metadata : Text → Text → ErrorOption
with_metadata key value (error c m cause meta r a s) =
    error c m cause (some (insert key value (or_empty_map meta))) r a s

unfoldable pub with_retryable : Bool → ErrorOption
with_retryable b (error c m cause meta r a s) = error c m cause meta (some b) a s

unfoldable pub with_alert : Bool → ErrorOption
with_alert b (error c m cause meta r a s) = error c m cause meta r (some b) s

unfoldable pub with_severity : Severity → ErrorOption
with_severity sev (error c m cause meta r a s) = error c m cause meta r a (some sev)

-- `for _, opt := range opts { if opt != nil { opt(e) } }`; a nil option is `none`.
unfoldable pub apply_options : List (Option ErrorOption) → Error → Error
apply_options [] e = e
apply_options (none ∷ opts) e = apply_options opts e
apply_options (some opt ∷ opts) e = apply_options opts (opt e)

unfoldable pub new : Registry → Code → Text → List (Option ErrorOption) → Error
unfolding apply_options attributes_of
new registry code message opts =
    let message' = if is_empty message then (attributes_of registry code).message else message in
    apply_options opts (error code message' nil none none none none)

abbrev set_cause : GoError → Error → Error
set_cause cause (error c m _ meta r a s) = error c m cause meta r a s

unfoldable pub wrap : Registry → Code → GoError → Text → List (Option ErrorOption) → Error
unfolding new
wrap registry code cause message opts = set_cause cause (new registry code message opts)

-- `e.Error()` of *Error, and of any error. Printing a nil error by %v gives "<nil>".
unfoldable mutual
  pub error_string : Error → Text
  error_string (error c m nil meta r a s) = txt "[" ++ c ++ txt "] " ++ m
  error_string (error c m cause meta r a s) =
      txt "[" ++ c ++ txt "] " ++ m ++ txt ": " ++ error_text cause

  pub error_text : GoError → Text
  error_text nil = txt "<nil>"
  error_text (plain t) = t
  error_text (wrapped t cause) = t
  error_text (unified e) = error_string e
  error_text typed_nil = []
