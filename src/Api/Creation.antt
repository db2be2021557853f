-- ===== src/Api/Creation.antt =====
-- internal/api/server.go: what handleCreateTask answers on the in-memory deployment.
use open_mcp_chain.Prelude.{
  ℕ, Bool, true, false, not, Option, none, some, Text, txt, text_eq, ◌==◌, is_empty, trim_space,
  if◌then◌else◌,
}
use open_mcp_chain.Prelude.Map.{lookup}
use open_mcp_chain.Task.Types.{Task}
use open_mcp_chain.Task.Interfaces.{TaskRequest}
use open_mcp_chain.Task.Service.{new_task}
use open_mcp_chain.Task.Store.{clone_task}
use open_mcp_chain.Task.World.{World}
use open_mcp_chain.Api.{Request, Response, respond, accepted, error_response}

abbrev pub refusal : ℕ → Text → Text → Response
refusal status code message = respond status (error_response code message)

-- The answer for a task whose goal is not blank, by what the store holds under the id that it names.
abbrev pub answer_found : ℕ → TaskRequest → Bool → Option Task → Response
answer_found max_retries req closed (some task) = respond 202 (accepted (clone_task task))
answer_found max_retries req true none =
    refusal 502 (txt "TASK_PUBLISH_FAILED") (txt "[TASK_PUBLISH_FAILED] 发布任务到队列失败: 队列已关闭")
answer_found max_retries req false none =
    respond 202 (accepted (new_task (trim_space req.id) req max_retries))

abbrev pub answer_request : {E : Type 0} → ℕ → World E → Option TaskRequest → Response
answer_request max_retries w none = refusal 400 (txt "INVALID_ARGUMENT") (txt "请求体解析失败")
answer_request max_retries w (some req) =
    if is_empty (trim_space req.goal)
    then refusal 400 (txt "TASK_VALIDATION_FAILED") (txt "[TASK_VALIDATION_FAILED] 任务目标不能为空")
    else answer_found max_retries req w.queue.closed (lookup (trim_space req.id) w.store.tasks)

-- The answer to a request where the queue is open and has room, or is closed.
abbrev pub answer_to : {E : Type 0} → ℕ → World E → Request → Response
answer_to max_retries w r =
    if r.method == txt "POST"
    then answer_request max_retries w r.body
    else refusal 405 (txt "METHOD_NOT_ALLOWED") (txt "仅支持 POST")

-- The id of the request, if it can be read, is not blank.
abbrev pub names_id : Option TaskRequest → Bool
names_id none = true
names_id (some req) = not (is_empty (trim_space req.id))
