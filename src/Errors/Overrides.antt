-- ===== src/Errors/Overrides.antt =====
-- Which attributes an error has: those registered for its outermost code, unless an option overrides
-- them.
use open_mcp_chain.Prelude.{
  ◌≡◌, refl, Bool, Option, none, some, List, [], ◌∷◌, ◌++◌, Text, text_eq, ◌==◌, arith,
  if◌then◌else◌,
}
use open_mcp_chain.Prelude.Map.{lookup, lookup-insert}
use open_mcp_chain.Errors.Registry.{
  Code, code_unknown, Severity, Attributes, Registry, register, attributes_of, or_fallback,
}
use open_mcp_chain.Errors.Value.{
  Error, error, unified, ErrorOption, with_retryable, with_alert, with_severity, apply_options, new,
}
use open_mcp_chain.Errors.Reading.{
  retryable, should_alert, severity, retryable_error, should_alert_error, severity_of,
}

abbrev pub overriding : Bool → Bool → Severity → List (Option ErrorOption)
overriding r a s = some (with_retryable r) ∷ some (with_alert a) ∷ some (with_severity s) ∷ []

apply_options-overriding :
    (registry : Registry) (opts : List (Option ErrorOption)) (r a : Bool) (s : Severity) (e : Error)
    → let e' = some (apply_options (opts ++ overriding r a s) e) in
      (retryable registry e' ≡ r) × (should_alert registry e' ≡ a) × (severity registry e' ≡ s)
unfolding apply_options with_retryable with_alert with_severity retryable should_alert severity
apply_options-overriding registry [] r a s (error _ _ _ _ _ _ _) = (refl, refl, refl)
apply_options-overriding registry (none ∷ opts) r a s e =
    apply_options-overriding registry opts r a s e
apply_options-overriding registry (some opt ∷ opts) r a s e =
    apply_options-overriding registry opts r a s (opt e)

-- The last WithRetryable, WithAlert and WithSeverity among the options of New decide what the error
-- answers, whatever its code, the registry and the options before them.
pub new-overriding :
    (registry : Registry) (c : Code) (m : Text) (opts : List (Option ErrorOption)) (r a : Bool)
    (s : Severity)
    → let err = unified (new registry c m (opts ++ overriding r a s)) in
      (retryable_error registry err ≡ r)
      × (should_alert_error registry err ≡ a)
      × (severity_of registry err ≡ s)
unfolding new retryable_error should_alert_error severity_of
new-overriding registry c m opts r a s = apply_options-overriding registry opts r a s _

-- After Register of a code, every code has: the attributes given if it is that code; else its own, if it
-- was registered; else those of UNKNOWN, which are the ones given if UNKNOWN is the code registered, and
-- zero if UNKNOWN is not registered at all.
pub attributes_of-register :
    (registry : Registry) (c c' : Code) (attr : Attributes)
    → attributes_of (register c attr registry) c' ≡ (
        if c == c'
        then attr
        else or_fallback
            (lookup c' registry)
            (if c == code_unknown then some attr else lookup code_unknown registry))
unfolding attributes_of register
attributes_of-register registry c c' attr =
    ground (arith, lookup-insert c c' attr registry, lookup-insert c code_unknown attr registry)
