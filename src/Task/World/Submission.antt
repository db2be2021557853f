-- ===== src/Task/World/Submission.antt =====
-- What Submit does on the in-memory deployment.
use open_mcp_chain.Prelude.{
  ℕ, ◌≡◌, refl, true, false, none, some, [], ◌∷◌, ◌++◌, Text, txt, text_eq, text_beq, is_empty,
  trim_space, arith,
}
use open_mcp_chain.Prelude.Map.{lookup, insert, lookup-insert_self}
use open_mcp_chain.Errors.Value.{GoError, nil, unified, wrap, plain, error_text}
use open_mcp_chain.Errors.Reading.{is_error}
use open_mcp_chain.Task.Types.{Task, code_task_publish, task_registry, err_task_not_found}
use open_mcp_chain.Task.Store.{
  clone_task, created, broken, create as store_create, get as store_get,
}
use open_mcp_chain.Task.Queue.{publish as queue_publish}
use open_mcp_chain.Task.Interfaces.{◌>>=◌, ok, err, TaskRequest}
use open_mcp_chain.Task.Service.{submit, found_or_new, enqueue, new_task, publish_failed}
use open_mcp_chain.Task.World.{World, now, tick, get, create, publish, memory_service}
use open_mcp_chain.Task.World.Outcomes.{HasRoom, publish_room, mark_failed_found}

not_found-is_error : is_error (unified err_task_not_found) err_task_not_found ≡ true
unfolding is_error err_task_not_found text_beq
not_found-is_error = refl

publish_shut :
    {E : Type 0} (id : Text) (w : World E)
    → w.queue.closed ≡ true
    → publish id w ≡ (plain (txt "队列已关闭"), w)
unfolding publish queue_publish
publish_shut id w shut = ground arith

-- Publish refused because the queue is closed, as Submit reports it
abbrev pub publish_error : GoError
publish_error =
    unified (wrap task_registry code_task_publish (plain (txt "队列已关闭")) (txt "发布任务到队列失败") [])

-- The task that a submission of a new id stores.
abbrev pub submitted : {E : Type 0} → ℕ → TaskRequest → World E → Task
submitted max_retries req w = created (new_task (trim_space req.id) req max_retries) (now w)

-- The same task after Publish failed.
abbrev pub unpublished : {E : Type 0} → ℕ → TaskRequest → World E → Task
unpublished max_retries req w =
    broken code_task_publish (error_text publish_error) (submitted max_retries req w) (now (tick w))

module _ {E : Type 0} (max_retries : ℕ) (fresh : Text) (req : TaskRequest) (w : World E)
    (goal : is_empty (trim_space req.goal) ≡ false) where
  abbrev given : Text
  given = trim_space req.id

  get_present :
      (t : Task) → lookup given w.store.tasks ≡ some t → get given w ≡ (ok (clone_task t), w)
  unfolding get store_get
  get_present t found = rw (found, store_get)

  get_absent :
      lookup given w.store.tasks ≡ none → get given w ≡ (err (unified err_task_not_found), w)
  unfolding get store_get
  get_absent free = rw (free, store_get)

  -- A submission with the id of a stored task returns a copy of that task, whatever its state, and changes
  -- nothing: no task is written and nothing is queued.
  pub submit_existing :
      (t : Task)
      → is_empty (trim_space req.id) ≡ false
      → lookup (trim_space req.id) w.store.tasks ≡ some t
      → submit (memory_service max_retries) fresh req w ≡ (ok (clone_task t), w)
  unfolding submit ◌>>=◌
  submit_existing t named found = rw (goal, named, get_present t found, found_or_new)

  create_free :
      is_empty given ≡ false
      → lookup given w.store.tasks ≡ none
      → create (new_task given req max_retries) w ≡ (
        nil,
        record (tick w) {
          store = record { tasks = insert given (submitted max_retries req w) w.store.tasks };
        },
      )
  unfolding create store_create new_task
  create_free named free = rw (named, free, store_create)

  -- The task that the submission of a new id returns, and the world that it leaves.
  pub submit_world :
      is_empty given ≡ false
      → lookup given w.store.tasks ≡ none
      → HasRoom w.queue
      → submit (memory_service max_retries) fresh req w ≡ (
        ok (new_task given req max_retries),
        record (tick w) {
          store = record { tasks = insert given (submitted max_retries req w) w.store.tasks };
          queue = record w.queue { items = w.queue.items ++ given ∷ [] };
        },
      )
  unfolding submit enqueue ◌>>=◌
  submit_world named free room =
      rw
        (
          goal,
          named,
          get_absent free,
          found_or_new,
          not_found-is_error,
          create_free named free,
          publish_room,
          room,
        )
        refl

  abbrev after_failure : World E
  after_failure = record (tick (tick w)) {
    store = record {
      tasks =
          insert given (unpublished max_retries req w)
            (insert given (submitted max_retries req w) w.store.tasks);
    };
  }

  pub submit_shut :
      is_empty given ≡ false
      → lookup given w.store.tasks ≡ none
      → w.queue.closed ≡ true
      → submit (memory_service max_retries) fresh req w ≡ (err publish_error, after_failure)
  unfolding submit enqueue publish_failed ◌>>=◌
  submit_shut named free shut =
      let there = lookup-insert_self given (submitted max_retries req w) w.store.tasks in
      rw
        (
          goal,
          named,
          get_absent free,
          found_or_new,
          not_found-is_error,
          create_free named free,
          publish_shut,
          shut,
          mark_failed_found,
          there,
        )
        refl

-- A submission with an id that is not stored, to a queue that is closed: the error returned is
-- TASK_PUBLISH_FAILED; nothing is queued; the task stays in the store, failed, with that code. A second
-- submission of the same request then returns that failed task with no error, and changes nothing.
pub submit-unpublished :
    {E : Type 0} (max_retries : ℕ) (fresh : Text) (req : TaskRequest) (w : World E)
    (goal : is_empty (trim_space req.goal) ≡ false)
    → is_empty (trim_space req.id) ≡ false
    → lookup (trim_space req.id) w.store.tasks ≡ none
    → w.queue.closed ≡ true
    → let (r, w') = submit (memory_service max_retries) fresh req w in
      let stored = unpublished max_retries req w in
      (r ≡ err publish_error)
      × (w'.queue ≡ w.queue)
      × (lookup (trim_space req.id) w'.store.tasks ≡ some stored)
      × (submit (memory_service max_retries) fresh req w' ≡ (ok (clone_task stored), w'))
submit-unpublished max_retries fresh req w goal named free shut =
    let stored = unpublished max_retries req w in
    let first = submitted max_retries req w in
    let id = trim_space req.id in
    let there = lookup-insert_self id stored (insert id first w.store.tasks) in
    rw (submit_shut max_retries fresh req w goal named free shut) (
      refl,
      refl,
      there,
      submit_existing max_retries fresh req (after_failure max_retries fresh req w goal) goal stored
          named there,
    )
