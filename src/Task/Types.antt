-- ===== src/Task/Types.antt =====
-- internal/task/task.go and stats.go: a task, its status, its error values and the codes it registers.
use open_mcp_chain.Prelude.{
  ℕ, Bool, true, false, Option, none, some, [], ◌∷◌, Text, txt, text_eq, ◌==◌, if◌then◌else◌,
}
use open_mcp_chain.Prelude.Map.{Map, copy_into}
use open_mcp_chain.Errors.Registry.{
  Code, info, warning, critical, Registry, attributes, initial_registry, register,
}
use open_mcp_chain.Errors.Value.{Error, GoError, with_severity, new}
use open_mcp_chain.Errors.Reading.{is_error}

-- `other` stands for any string that is none of the four constants.
pub data Status : Type 0 where
  pending running succeeded failed : Status
  other : Text → Status

abbrev pub status_eq : Status → Status → Bool
status_eq pending pending = true
status_eq running running = true
status_eq succeeded succeeded = true
status_eq failed failed = true
status_eq (other s) (other t) = s == t
status_eq _ _ = false

-- IsValidStatus
unfoldable pub is_valid_status : Status → Bool
is_valid_status (other s) = false
is_valid_status _ = true

pub record ExecutionResult : Type 0 where
  pub thought : Text
  pub reply : Text
  pub chain_id : Text
  pub block_number : Text
  pub observations : Text

-- A value of type `any` is represented by the text that fmt.Sprint prints for it, which is all that the
-- code reads of it.
abbrev pub Metadata : Type 0
Metadata = Map Text Text

-- Times are Unix seconds of a clock past 1970; `attempts` and `max_retries` are never negative here.
pub record Task : Type 0 where
  pub id : Text
  pub goal : Text
  pub chain_action : Text
  pub address : Text
  pub metadata : Option Metadata
  pub status : Status
  pub attempts : ℕ
  pub max_retries : ℕ
  pub last_error : Text
  pub error_code : Text
  pub result : Option ExecutionResult
  pub created_at : ℕ
  pub updated_at : ℕ

pub record TaskStats : Type 0 where
  pub total : ℕ
  pub pending_count : ℕ
  pub running_count : ℕ
  pub succeeded_count : ℕ
  pub failed_count : ℕ
  pub oldest_updated_at : ℕ
  pub newest_updated_at : ℕ

abbrev pub code_task_not_found : Code
code_task_not_found = txt "TASK_NOT_FOUND"

abbrev pub code_task_conflict : Code
code_task_conflict = txt "TASK_CONFLICT"

abbrev pub code_task_completed : Code
code_task_completed = txt "TASK_COMPLETED"

abbrev pub code_task_exhausted : Code
code_task_exhausted = txt "TASK_RETRIES_EXHAUSTED"

abbrev pub code_task_validation : Code
code_task_validation = txt "TASK_VALIDATION_FAILED"

abbrev pub code_task_publish : Code
code_task_publish = txt "TASK_PUBLISH_FAILED"

abbrev pub code_task_processing : Code
code_task_processing = txt "TASK_PROCESSING_FAILED"

abbrev pub code_task_compensate : Code
code_task_compensate = txt "TASK_COMPENSATION_FAILED"

-- The registry after `init`.
unfoldable pub task_registry : Registry
unfolding initial_registry register
task_registry =
    register code_task_compensate (attributes (txt "task compensation failed") critical false true)
      (register code_task_processing (attributes (txt "task execution failed") warning true true) (
        register code_task_publish (attributes (txt "failed to publish task") critical true true) (
          register code_task_validation (attributes (txt "task validation failed") info false false)
            (register code_task_exhausted
              (attributes (txt "task retries exhausted") critical false true)
              (register code_task_completed
                (attributes (txt "task already completed") info false false)
                (register code_task_conflict (attributes (txt "task conflict") warning false false)
                  (register code_task_not_found (attributes (txt "task not found") info false false)
                    initial_registry)))))))

-- The package variables, which are set before `init` registers the codes.
unfoldable pub err_task_not_found : Error
unfolding new
err_task_not_found = new initial_registry code_task_not_found (txt "task not found") []

unfoldable pub err_task_conflict : Error
unfolding new with_severity
err_task_conflict =
    new initial_registry code_task_conflict (txt "task conflict")
      (some (with_severity warning) ∷ [])

unfoldable pub err_task_completed : Error
unfolding new with_severity
err_task_completed =
    new initial_registry code_task_completed (txt "task already completed")
      (some (with_severity info) ∷ [])

unfoldable pub err_task_exhausted : Error
unfolding new with_severity
err_task_exhausted =
    new initial_registry code_task_exhausted (txt "task retries exhausted")
      (some (with_severity critical) ∷ [])

-- IsTaskError; the walk of a nil error finds nothing, as the early return says.
unfoldable pub is_task_error : GoError → Code → Bool
is_task_error err target =
    if is_error err err_task_not_found
    then target == code_task_not_found
    else if is_error err err_task_conflict
    then target == code_task_conflict
    else if is_error err err_task_completed
    then target == code_task_completed
    else if is_error err err_task_exhausted
    then target == code_task_exhausted
    else false

-- cloneMetadata; `none` is the nil map.
unfoldable pub clone_metadata : Option Metadata → Option Metadata
unfolding copy_into
clone_metadata none = none
clone_metadata (some metadata) = some (copy_into [] metadata)
