-- ===== src/Task/Service.antt =====
-- internal/task/service.go: the service over any store and producer. A nil store or producer is
-- `none`. Logging is left out.
use open_mcp_chain.Prelude.{
  ℕ, zero, suc, Bool, true, false, Option, none, some, List, [], Text, txt, is_empty, trim_space,
  if◌then◌else◌,
}
use open_mcp_chain.Prelude.Int.{ℤ, pos, leb_ℤ, pos_part}
use open_mcp_chain.Errors.Registry.{code_initialization_failure}
use open_mcp_chain.Errors.Value.{GoError, nil, unified, is_nil, new, wrap, error_text}
use open_mcp_chain.Errors.Reading.{is_error}
use open_mcp_chain.Task.Types.{
  Status, pending, succeeded, failed, Task, TaskStats, task_registry, code_task_validation,
  code_task_publish, err_task_not_found, err_task_conflict, clone_metadata,
}
use open_mcp_chain.Task.Options.{ListOption, build_list_options}
use open_mcp_chain.Task.Interfaces.{
  Action, pure, ◌>>=◌, ◌>>◌, Result, ok, err, TaskRequest, Store, Producer,
}

pub record Service (W : Type 0) : Type 0 where
  pub store : Option (Store W)
  pub producer : Option (Producer W)
  pub max_retries : ℕ

unfoldable pub new_service : {W : Type 0} → Option (Store W) → Option (Producer W) → ℤ → Service W
new_service store producer max_retries = record {
  store = store;
  producer = producer;
  max_retries = if leb_ℤ max_retries (pos 0) then 3 else pos_part max_retries;
}

-- the task that Submit creates
unfoldable pub new_task : Text → TaskRequest → ℕ → Task
new_task id req max_retries = record {
  id = id;
  goal = req.goal;
  chain_action = req.chain_action;
  address = req.address;
  metadata = clone_metadata req.metadata;
  status = pending;
  attempts = 0;
  max_retries = max_retries;
  last_error = [];
  error_code = [];
  result = none;
  created_at = 0;
  updated_at = 0;
}

abbrev not_initialised : Text → GoError
not_initialised message = unified (new task_registry code_initialization_failure message [])

abbrev pub is_finished : Status → Bool
is_finished succeeded = true
is_finished failed = true
is_finished _ = false

-- what Get returned after a conflict `e` of Create
unfoldable pub after_conflict : GoError → Result Task → Result Task
after_conflict e (ok existing) = ok existing
after_conflict e (err e') = if is_error e' err_task_not_found then err e else err e'

module _ {W : Type 0} where
  -- Create returned an error
  unfoldable pub create_failed : Store W → Text → GoError → Action W (Result Task)
  unfolding after_conflict
  create_failed store id e =
      if is_error e err_task_conflict
      then (do found ← store.get id; pure (after_conflict e found))
      else pure (err e)

  -- Publish returned an error
  unfoldable pub publish_failed : Store W → Text → GoError → Action W (Result Task)
  publish_failed store id e =
      let wrapped = unified (wrap task_registry code_task_publish e (txt "发布任务到队列失败") []) in
      do store.mark_failed id code_task_publish (error_text wrapped) true; pure (err wrapped)

  -- from the construction of the task on
  unfoldable pub enqueue : Store W → Producer W → ℕ → Text → TaskRequest → Action W (Result Task)
  unfolding new_task create_failed publish_failed
  enqueue store producer max_retries id req =
      let task = new_task id req max_retries in
      do
        e ← store.create task
        if is_nil e
            then (do
              e' ← producer.publish id
              if is_nil e' then pure (ok task) else publish_failed store id e')
            else create_failed store id e

  -- what Get returned for the id that is given: a task of that id is returned as it is
  unfoldable pub found_or_new :
      Store W → Producer W → ℕ → Text → TaskRequest → Result Task → Action W (Result Task)
  unfolding enqueue
  found_or_new store producer max_retries id req (ok task) = pure (ok task)
  found_or_new store producer max_retries id req (err e) =
      if is_error e err_task_not_found
      then enqueue store producer max_retries id req
      else pure (err e)

  unfoldable pub submit_named :
      Store W → Producer W → ℕ → Text → TaskRequest → Action W (Result Task)
  unfolding found_or_new
  submit_named store producer max_retries id req = do
    found ← store.get id
    found_or_new store producer max_retries id req found

  unfoldable pub submit_to :
      Option (Store W) → Option (Producer W) → ℕ → Text → TaskRequest → Action W (Result Task)
  unfolding submit_named enqueue
  submit_to (some store) (some producer) max_retries fresh req =
      let id = trim_space req.id in
      if is_empty id
      then enqueue store producer max_retries fresh req
      else submit_named store producer max_retries id req
  submit_to _ _ max_retries fresh req = pure (err (not_initialised (txt "任务服务未初始化")))

  -- `fresh` is what uuid.NewString returns, if it is called.
  unfoldable pub submit : Service W → Text → TaskRequest → Action W (Result Task)
  unfolding submit_to
  submit s fresh req =
      if is_empty (trim_space req.goal)
      then pure (err (unified (new task_registry code_task_validation (txt "任务目标不能为空") [])))
      else submit_to s.store s.producer s.max_retries fresh req

  unfoldable pub get_from : Option (Store W) → Text → Action W (Result Task)
  get_from none id = pure (err (not_initialised (txt "任务存储未初始化")))
  get_from (some store) id = store.get id

  unfoldable pub get : Service W → Text → Action W (Result Task)
  unfolding get_from
  get s id = get_from s.store id

  unfoldable pub list_from :
      Option (Store W) → List (Option ListOption) → Action W (Result (List Task))
  unfolding build_list_options
  list_from none opts = pure (err (not_initialised (txt "任务存储未初始化")))
  list_from (some store) opts = store.list (build_list_options opts)

  unfoldable pub list : Service W → List (Option ListOption) → Action W (Result (List Task))
  unfolding list_from
  list s opts = list_from s.store opts

  unfoldable pub stats_from :
      Option (Store W) → List (Option ListOption) → Action W (Result TaskStats)
  unfolding build_list_options
  stats_from none opts = pure (err (not_initialised (txt "任务存储未初始化")))
  stats_from (some store) opts = store.stats (build_list_options opts)

  unfoldable pub stats : Service W → List (Option ListOption) → Action W (Result TaskStats)
  unfolding stats_from
  stats s opts = stats_from s.store opts

  close_store : Option (Store W) → Action W GoError
  close_store none = pure nil
  close_store (some store) = store.close

  close_producer : Option (Producer W) → Action W GoError
  close_producer none = pure nil
  close_producer (some producer) = producer.close

  unfoldable pub close : Service W → Action W GoError
  unfolding close_store close_producer
  close s = do e ← close_store s.store; if is_nil e then close_producer s.producer else pure e

  -- WaitUntilCompleted for at most `rounds` polls: what happens in the world between two polls is
  -- `tick`, whose result is the error of the context if that ended first. `none`: still waiting.
  unfoldable pub wait_until_completed :
      ℕ → Action W (Option GoError) → Service W → Text → Action W (Option (Result Task))
  wait_until_completed zero tick s id = pure none
  wait_until_completed (suc rounds) tick s id = do
    found ← get s id
    elim found [
      | err e ↦ pure (some (err e))
      | ok task ↦ if is_finished task.status then pure (some (ok task)) else do
        ended ← tick
        elim ended [ some e ↦ pure (some (err e)) | none ↦ wait_until_completed rounds tick s id ]
    ]
