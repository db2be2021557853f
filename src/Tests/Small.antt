-- ===== src/Tests/Small.antt =====
-- Options, the queue and the error values at concrete inputs.
use open_mcp_chain.Prelude.{
  ℕ, ◌≡◌, refl, false, ◌&&◌, some, List, [], ◌∷◌, txt, text_eq, arith, ◌≤◌, ◌⊎◌, ◌↔◌, true,
}
use open_mcp_chain.Prelude.Int.{pos}
use open_mcp_chain.Errors.Registry.{code_timeout}
use open_mcp_chain.Errors.Value.{GoError, wrapped, unified, new, with_metadata}
use open_mcp_chain.Errors.Reading.{is_error, from, error_code}
use open_mcp_chain.Errors.Chain.{HasCode, IsFirst, is_error-unwraps}
use open_mcp_chain.Task.Types.{
  Status, pending, failed, other, is_valid_status, task_registry, err_task_conflict,
}
use open_mcp_chain.Task.Options.{
  updated_asc, updated_desc, apply_defaults, normalize_statuses, has_status,
}
use open_mcp_chain.Task.Options.Normal.{IsDistinct, apply_defaults_bounds, normalize_statuses_lem}
use open_mcp_chain.Task.Queue.{sends, panics, publish, read_closed, select_send, close}
use open_mcp_chain.Task.Queue.Race.{Published, publish_cases, publish_race}
use open_mcp_chain.Tests.Samples.{some_options, queue_of}

apply_defaults_bounds_example :
    let opts' = apply_defaults some_options in
    ((n : ℕ) × (opts'.limit ≡ pos n) × (1 ≤ n) × (n ≤ 100))
    × ((n : ℕ) × (opts'.offset ≡ pos n))
    × ((opts'.order ≡ updated_asc) ⊎ (opts'.order ≡ updated_desc))
apply_defaults_bounds_example = apply_defaults_bounds some_options

abbrev filter : List Status
filter = failed ∷ other (txt "paused") ∷ pending ∷ failed ∷ []

normalize_statuses_example :
    IsDistinct (normalize_statuses filter)
    × ((s : Status)
        → has_status (normalize_statuses filter) s ≡ (is_valid_status s && has_status filter s))
normalize_statuses_example = normalize_statuses_lem filter

publish_cases_example :
    Published sends
      (txt "c")
      (queue_of (txt "a" ∷ []) false)
      (publish sends (txt "c") (queue_of (txt "a" ∷ []) false))
publish_cases_example =
    publish_cases sends (txt "c") (queue_of (txt "a" ∷ []) false)
      (record { flagged = refl; fits = omega arith })

open_read : read_closed (queue_of (txt "a" ∷ []) false) ≡ false
unfolding read_closed
open_read = refl

publish_race_example : select_send sends (txt "c") (close (queue_of (txt "a" ∷ []) false)) ≡ panics
publish_race_example = publish_race (txt "c") (queue_of (txt "a" ∷ []) false) open_read

abbrev nested : GoError
nested = wrapped (txt "load task: conflict") (
    unified
      (new task_registry code_timeout (txt "late") (some (with_metadata (txt "k") (txt "v")) ∷ [])))

is_error-unwraps_example :
    ((is_error nested err_task_conflict ≡ true) ↔ HasCode nested (error_code err_task_conflict))
    × ((from nested ≡ some (some err_task_conflict)) ↔ IsFirst nested err_task_conflict)
is_error-unwraps_example = is_error-unwraps nested err_task_conflict err_task_conflict
