-- ===== src/Api.antt =====
-- internal/api/server.go: requests, responses, and the errors that handlers report. The response's header and
-- the JSON text are left out; what is encoded is the body. Logging and metrics are left out.
pub mod Filters
pub mod Tasks
pub mod Creation
pub mod Paging
pub mod Tokens
use open_mcp_chain.Prelude.{
  ℕ, Bool, true, false, ◌||◌, Option, none, some, List, [], ◌∷◌, Text, txt, text_eq, ◌==◌, is_empty,
  eqb, if◌then◌else◌,
}
use open_mcp_chain.Prelude.Map.{Map, lookup}
use open_mcp_chain.Errors.Registry.{
  Code, code_invalid_argument, code_not_found, code_conflict, code_initialization_failure,
  code_queue_failure,
}
use open_mcp_chain.Errors.Value.{GoError, is_nil}
use open_mcp_chain.Errors.Reading.{code_of}
use open_mcp_chain.Task.Types.{
  Task, TaskStats, code_task_validation, code_task_not_found, code_task_conflict, code_task_publish,
}
use open_mcp_chain.Task.Interfaces.{TaskRequest}
use open_mcp_chain.Auth.Tokens.{TokenPair}

-- `body` is what the JSON decoder makes of the request's body as a TaskRequest.
pub record Request : Type 0 where
  pub method : Text
  pub path : Text
  pub query : Map Text (List Text)
  pub body : Option TaskRequest

pub record ListResponse : Type 0 where
  pub tasks : List Task
  pub total : ℕ
  pub has_more : Bool
  pub next_offset : Option ℕ

-- `accepted` is the map that handleCreateTask encodes, of the fields of this task.
pub data Body : Type 0 where
  error_response : Text → Text → Body
  one_task : Task → Body
  accepted : Task → Body
  task_list : ListResponse → Body
  task_stats : TaskStats → Body
  issued : TokenPair → Body

pub record Response : Type 0 where
  pub status : ℕ
  pub body : Body

abbrev pub respond : ℕ → Body → Response
respond status body = record { status = status; body = body }

-- http.StatusText, for the codes that the handlers report
unfoldable pub status_text : ℕ → Text
status_text status =
    if eqb status 400
    then txt "Bad Request"
    else if eqb status 401
    then txt "Unauthorized"
    else if eqb status 403
    then txt "Forbidden"
    else if eqb status 404
    then txt "Not Found"
    else if eqb status 405
    then txt "Method Not Allowed"
    else if eqb status 409
    then txt "Conflict"
    else if eqb status 500
    then txt "Internal Server Error"
    else if eqb status 502
    then txt "Bad Gateway"
    else if eqb status 503
    then txt "Service Unavailable"
    else []

unfoldable pub write_json_error : ℕ → Text → Text → Response
unfolding status_text
write_json_error status code message = respond status (
    error_response (if is_empty code then txt "UNKNOWN_ERROR" else code)
      (if is_empty message then status_text status else message))

unfoldable pub status_from_error : GoError → ℕ
status_from_error e =
    let code = code_of e in
    if is_nil e
    then 500
    else if code == code_invalid_argument || code == code_task_validation
    then 400
    else if code == code_not_found || code == code_task_not_found
    then 404
    else if code == code_conflict || code == code_task_conflict
    then 409
    else if code == code_initialization_failure
    then 503
    else if code == code_queue_failure || code == code_task_publish
    then 502
    else 500

unfoldable pub first_value : Map Text (List Text) → Text → Text
first_value values key = first (lookup key values)
  where
    first : Option (List Text) → Text
    first (some (v ∷ vs)) = v
    first _ = []
