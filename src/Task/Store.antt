-- ===== src/Task/Store.antt =====
-- internal/task/memory_store.go: the operations that change the tasks or read one of them. Each stands
-- for one critical section of the store's mutex; `now` is what time.Now().Unix() returns in it.
pub mod Claim
pub mod Valid
pub mod History
pub mod Exclusion
pub mod Runs
use Prim.Native.Nat.{◌+◌}
use open_mcp_chain.Prelude.{
  ℕ, suc, Bool, true, false, Option, none, some, List, [], ◌∷◌, Text, txt, text_eq, is_empty, eqb,
  leb, if◌then◌else◌,
}
use open_mcp_chain.Prelude.Map.{Map, lookup, insert}
use open_mcp_chain.Errors.Registry.{Code, code_invalid_argument}
use open_mcp_chain.Errors.Value.{GoError, nil, unified, new}
use open_mcp_chain.Task.Types.{
  Status, pending, running, succeeded, failed, ExecutionResult, Task, task_registry,
  err_task_not_found, err_task_conflict, err_task_completed, err_task_exhausted, clone_metadata,
}

pub record MemoryStore : Type 0 where
  pub tasks : Map Text Task

abbrev pub new_memory_store : MemoryStore
new_memory_store = record { tasks = [] }

-- cloneTask: a copy with its own metadata map; copying the result is the identity on values.
unfoldable pub clone_task : Task → Task
clone_task task = record task { metadata = clone_metadata task.metadata }

abbrev put : Text → Task → MemoryStore → MemoryStore
put id task store = record { tasks = insert id task store.tasks }

abbrev invalid_argument : Text → GoError
invalid_argument message = unified (new task_registry code_invalid_argument message [])

-- the record that Create stores
unfoldable pub created : Task → ℕ → Task
created task now = record task {
  created_at = if eqb task.created_at 0 then now else task.created_at;
  updated_at = now;
  metadata = clone_metadata task.metadata;
}

unfoldable pub create : Option Task → ℕ → MemoryStore → GoError × MemoryStore
create none now store = (invalid_argument (txt "task 不能为空"), store)
create (some task) now store =
    if is_empty task.id
    then (invalid_argument (txt "任务 ID 不能为空"), store)
    else elim (lookup task.id store.tasks) [
      | some _ ↦ (unified err_task_conflict, store)
      | none ↦ (nil, put task.id (created task now) store)
    ]

unfoldable pub get : Text → MemoryStore → Option Task × GoError
get id store = elim (lookup id store.tasks) [
  | none ↦ (none, unified err_task_not_found)
  | some task ↦ (some (clone_task task), nil)
]

-- the task after a successful claim
unfoldable pub claimed : Task → ℕ → Task
claimed task now = record task {
  status = running;
  attempts = task.attempts + 1;
  last_error = [];
  error_code = [];
  updated_at = now;
}

claim_task : Text → Task → Status → ℕ → MemoryStore → (Option Task × GoError) × MemoryStore
claim_task id task succeeded now store =
    ((some (clone_task task), unified err_task_completed), store)
claim_task id task running now store = ((some (clone_task task), unified err_task_conflict), store)
claim_task id task _ now store =
    if leb task.max_retries task.attempts
    then ((some (clone_task task), unified err_task_exhausted), store)
    else ((some (clone_task (claimed task now)), nil), put id (claimed task now) store)

unfoldable pub claim : Text → ℕ → MemoryStore → (Option Task × GoError) × MemoryStore
unfolding claim_task
claim id now store = elim (lookup id store.tasks) [
  | none ↦ ((none, unified err_task_not_found), store)
  | some task ↦ claim_task id task task.status now store
]

unfoldable pub completed : ExecutionResult → Task → ℕ → Task
completed result task now = record task {
  status = succeeded;
  result = some result;
  last_error = [];
  error_code = [];
  updated_at = now;
}

unfoldable pub mark_succeeded : Text → ExecutionResult → ℕ → MemoryStore → GoError × MemoryStore
mark_succeeded id result now store = elim (lookup id store.tasks) [
  | none ↦ (unified err_task_not_found, store)
  | some task ↦ (nil, put id (completed result task now) store)
]

unfoldable pub broken : Code → Text → Task → ℕ → Task
broken code last_error task now = record task {
  status = failed;
  last_error = last_error;
  error_code = code;
  updated_at = now;
}

-- The last parameter, `terminal`, is not used.
unfoldable pub mark_failed : Text → Code → Text → Bool → ℕ → MemoryStore → GoError × MemoryStore
mark_failed id code last_error terminal now store = elim (lookup id store.tasks) [
  | none ↦ (unified err_task_not_found, store)
  | some task ↦ (nil, put id (broken code last_error task now) store)
]
