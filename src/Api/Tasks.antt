-- ===== src/Api/Tasks.antt =====
-- internal/api/server.go: the handlers of tasks, over the service, which is `none` where the server has none.
use Prim.Native.Nat.{◌+◌}
use open_mcp_chain.Prelude.{
  ℕ, suc, Bool, not, ◌||◌, Option, none, some, List, [], ◌∷◌, ◌++◌, Text, txt, text_eq, ◌==◌,
  is_empty, trim_space, contains_text, length, eqb, ltb, if◌then◌else◌,
}
use open_mcp_chain.Prelude.Int.{ℤ, pos}
use open_mcp_chain.Errors.Registry.{
  code_invalid_argument, code_not_found, code_initialization_failure,
}
use open_mcp_chain.Errors.Value.{GoError, error_text}
use open_mcp_chain.Errors.Reading.{code_of}
use open_mcp_chain.Task.Types.{Task, TaskStats, code_task_not_found, is_task_error}
use open_mcp_chain.Task.Options.{Time, default_list_limit, max_list_limit, with_offset, with_limit}
use open_mcp_chain.Task.Interfaces.{Action, pure, ◌>>=◌, Result, ok, err, TaskRequest}
use open_mcp_chain.Task.Service.{Service, submit, get, list, stats}
use open_mcp_chain.Api.{
  Request, ListResponse, Response, respond, one_task, accepted, task_list, task_stats,
  write_json_error, status_from_error, first_value,
}
use open_mcp_chain.Prelude.Parse.{atoi, trim_prefix, trim_slashes}
use open_mcp_chain.Api.Filters.{
  RequestError, Parsed, parsed, invalid, bad_request, FilterOptions, parse_filter_options,
}

abbrev method_not_allowed : Text → Response
method_not_allowed message = write_json_error 405 (txt "METHOD_NOT_ALLOWED") message

abbrev no_service : Response
no_service = write_json_error 503 code_initialization_failure (txt "任务服务未初始化")

abbrev no_task : Response
no_task = write_json_error 404 code_task_not_found (txt "任务不存在")

abbrev rejected : RequestError → Response
rejected e = write_json_error e.status e.code e.message

-- The response to an error of the service; `fallback` stands in for an empty code.
unfoldable pub failed_response : Text → GoError → Response
unfolding status_from_error
failed_response fallback e =
    write_json_error (status_from_error e) (if is_empty (code_of e) then fallback else code_of e)
      (error_text e)

-- the response to what Get returned
unfoldable pub get_response : Result Task → Response
get_response (ok task) = respond 200 (one_task task)
get_response (err e) =
    if is_task_error e code_task_not_found || code_of e == code_not_found
    then no_task
    else failed_response (txt "TASK_QUERY_FAILED") e

unfoldable pub submit_response : Result Task → Response
submit_response (ok task) = respond 202 (accepted task)
submit_response (err e) = failed_response (txt "TASK_SUBMIT_FAILED") e

unfoldable pub stats_response : Result TaskStats → Response
stats_response (ok counted) = respond 200 (task_stats counted)
stats_response (err e) = failed_response (txt "TASK_STATS_FAILED") e

abbrev positive : Option ℤ → Parsed ℕ
positive (some (pos (suc n))) =
    parsed (if ltb max_list_limit (suc n) then max_list_limit else suc n)
positive _ = bad_request (txt "INVALID_LIMIT") (txt "limit 参数必须为正整数")

unfoldable pub parse_limit : Text → Parsed ℕ
unfolding atoi
parse_limit raw = if is_empty raw then parsed default_list_limit else positive (atoi raw)

-- The total and whether there are more tasks, from the end of the page and what Stats returned.
abbrev pub total_after : ℕ → Result TaskStats → ℕ
total_after end (ok counted) = if ltb end counted.total then counted.total else end
total_after end (err e) = end

abbrev pub more_after : ℕ → Bool → Result TaskStats → Bool
more_after end full (ok counted) = ltb end counted.total
more_after end full (err e) = full

-- The body of a page that starts at the offset; the later test of the total is never true.
unfoldable pub list_response : ℕ → ℕ → List Task → Result TaskStats → ListResponse
list_response offset limit tasks counted =
    let end = offset + length tasks in
    let has_more = more_after end (eqb (length tasks) limit) counted in
    record {
      tasks = tasks;
      total = total_after end counted;
      has_more = has_more;
      next_offset = if has_more then some end else none;
    }

module _ {W : Type 0} where
  -- what List returned
  unfoldable pub after_list : Service W → ℕ → FilterOptions → Result (List Task) → Action W Response
  unfolding list_response
  after_list service limit filters (err e) = pure (failed_response (txt "TASK_LIST_FAILED") e)
  after_list service limit filters (ok tasks) = do
    counted ← stats service filters.options
    pure (respond 200 (task_list (list_response filters.offset limit tasks counted)))

  -- from the call of List on
  unfoldable pub answer_page : Service W → ℕ → FilterOptions → Action W Response
  unfolding after_list
  answer_page service limit filters = do
    found ← list service (
        filters.options
        ++ some (with_offset (pos filters.offset)) ∷ some (with_limit (pos limit)) ∷ [])
    after_list service limit filters found

  abbrev list_filtered : Service W → ℕ → Parsed FilterOptions → Action W Response
  list_filtered service limit (invalid e) = pure (rejected e)
  list_filtered service limit (parsed filters) = answer_page service limit filters

  abbrev list_limited : Service W → Parsed ℕ → Parsed FilterOptions → Action W Response
  list_limited service (invalid e) filters = pure (rejected e)
  list_limited service (parsed limit) filters = list_filtered service limit filters

  unfoldable pub handle_list_tasks :
      (Text → Option Time) → Option (Service W) → Request → Action W Response
  unfolding answer_page get_response
  handle_list_tasks parse_time none r = pure no_service
  handle_list_tasks parse_time (some service) r =
      let id = first_value r.query (txt "id") in
      if not (is_empty id)
      then (do found ← get service id; pure (get_response found))
      else list_limited service (parse_limit (first_value r.query (txt "limit")))
          (parse_filter_options parse_time r.query)

  abbrev create_from : Option (Service W) → Text → TaskRequest → Action W Response
  create_from none fresh req = pure no_service
  create_from (some service) fresh req = do
    result ← submit service fresh req
    pure (submit_response result)

  -- `fresh` is the id that Submit draws, if it does.
  unfoldable pub handle_create_task : Option (Service W) → Text → Request → Action W Response
  unfolding submit_response
  handle_create_task service fresh r =
      if not (r.method == txt "POST")
      then pure (method_not_allowed (txt "仅支持 POST"))
      else elim r.body [
        | none ↦ pure (write_json_error 400 code_invalid_argument (txt "请求体解析失败"))
        | some req ↦ create_from service fresh req
      ]

  unfoldable pub handle_tasks :
      (Text → Option Time) → Option (Service W) → Text → Request → Action W Response
  unfolding handle_list_tasks handle_create_task
  handle_tasks parse_time service fresh r =
      if r.method == txt "POST"
      then handle_create_task service fresh r
      else if r.method == txt "GET"
      then handle_list_tasks parse_time service r
      else pure (method_not_allowed (txt "仅支持 GET/POST"))

  abbrev get_detail : Option (Service W) → Text → Action W Response
  get_detail none id = pure no_service
  get_detail (some service) id =
      if contains_text id (txt "/")
      then pure no_task
      else (do found ← get service id; pure (get_response found))

  -- The code reads the id a second time, where it is not empty.
  unfoldable pub handle_task_detail :
      (Text → Option Time) → Option (Service W) → Text → Request → Action W Response
  unfolding handle_tasks get_response trim_prefix trim_slashes
  handle_task_detail parse_time service fresh r =
      let id = trim_slashes (trim_space (trim_prefix r.path (txt "/api/v1/tasks/"))) in
      if is_empty id
      then handle_tasks parse_time service fresh r
      else if not (r.method == txt "GET")
      then pure (method_not_allowed (txt "仅支持 GET"))
      else get_detail service id

  abbrev count_filtered : Service W → Parsed FilterOptions → Action W Response
  count_filtered service (invalid e) = pure (rejected e)
  count_filtered service (parsed filters) = do
    counted ← stats service filters.options
    pure (stats_response counted)

  unfoldable pub handle_task_stats :
      (Text → Option Time) → Option (Service W) → Request → Action W Response
  unfolding stats_response
  handle_task_stats parse_time service r =
      if not (r.method == txt "GET")
      then pure (method_not_allowed (txt "仅支持 GET"))
      else elim service [
        | none ↦ pure no_service
        | some service' ↦ count_filtered service' (parse_filter_options parse_time r.query)
      ]
