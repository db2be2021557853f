-- ===== src/Task/Processor.antt =====
-- internal/task/processor.go: the construction of the processor, and one task id from the
-- queue, from the claim to the stored outcome. Logging is
-- left out. A nil store, executor, recovery handler or dispatcher is `none`.
pub mod Workers
use open_mcp_chain.Prelude.{
  ℕ, Bool, false, not, ◌&&◌, ◌||◌, Option, none, some, List, [], ◌∷◌, ◌++◌, Text, txt, text_eq,
  ◌==◌, is_empty, leb, if◌then◌else◌,
}
use open_mcp_chain.Prelude.Int.{ℤ, pos, leb_ℤ, ltb_ℤ}
use open_mcp_chain.Errors.Registry.{Code, code_unknown, code_initialization_failure, attributes_of}
use open_mcp_chain.Errors.Value.{GoError, nil, unified, is_nil, new, wrap, error_text}
use open_mcp_chain.Errors.Reading.{is_error, code_of, retryable_error}
use open_mcp_chain.Task.Types.{
  pending, ExecutionResult, Task, task_registry, code_task_processing, code_task_publish,
  code_task_compensate, err_task_not_found, err_task_completed, err_task_exhausted, clone_metadata,
}
use open_mcp_chain.Task.Interfaces.{
  Action, pure, ◌>>=◌, ◌>>◌, Result, ok, err, TaskRequest, TaskResult, Event, Store, Producer,
  Consumer, Executor, RecoveryHandler, Dispatcher,
}

-- `clock` is time.Now.
pub record Processor (W : Type 0) : Type 0 where
  pub executor : Option (Executor W)
  pub store : Option (Store W)
  pub consumer : Option (Consumer W)
  pub producer : Producer W
  pub worker_count : ℤ
  pub recovery : Option (RecoveryHandler W)
  pub alerter : Option (Dispatcher W)
  pub clock : Action W ℕ

-- func(*Processor); WithProcessorLogger changes nothing that is modelled.
abbrev pub ProcessorOption : Type 0 → Type 0
ProcessorOption W = Processor W → Processor W

module _ {W : Type 0} where
  unfoldable pub with_worker_count : ℤ → ProcessorOption W
  with_worker_count workers p =
      if ltb_ℤ (pos 0) workers then record p { worker_count = workers } else p

  unfoldable pub with_recovery_handler : Option (RecoveryHandler W) → ProcessorOption W
  with_recovery_handler handler p = record p { recovery = handler }

  unfoldable pub with_alert_dispatcher : Option (Dispatcher W) → ProcessorOption W
  with_alert_dispatcher dispatcher p = record p { alerter = dispatcher }

  -- the loop of NewProcessor; a nil option is `none`
  unfoldable pub apply_processor_options : List (Option (ProcessorOption W)) → ProcessorOption W
  apply_processor_options [] p = p
  apply_processor_options (none ∷ opts) p = apply_processor_options opts p
  apply_processor_options (some opt ∷ opts) p = apply_processor_options opts (opt p)

  unfoldable pub new_processor :
      Option (Executor W)
      → Option (Store W)
      → Option (Consumer W)
      → Producer W
      → Action W ℕ
      → List (Option (ProcessorOption W))
      → Processor W
  unfolding apply_processor_options
  new_processor executor store consumer producer clock opts =
      let p = apply_processor_options opts (record {
        executor = executor;
        store = store;
        consumer = consumer;
        producer = producer;
        worker_count = pos 1;
        recovery = none;
        alerter = none;
        clock = clock;
      }) in
      if leb_ℤ p.worker_count (pos 0) then record p { worker_count = pos 1 } else p

-- &Task{ID: taskID}
unfoldable pub bare_task : Text → Task
bare_task id = record {
  id = id;
  goal = [];
  chain_action = [];
  address = [];
  metadata = none;
  status = pending;
  attempts = 0;
  max_retries = 0;
  last_error = [];
  error_code = [];
  result = none;
  created_at = 0;
  updated_at = 0;
}

-- the event that emitAlert builds; its cause is never nil here
unfoldable pub alert_event : Task → Code → GoError → Text → ℕ → Event
alert_event task code cause stage now = record {
  code = code;
  message = error_text cause;
  severity = (attributes_of task_registry code).severity;
  task_id = task.id;
  attempts = task.attempts;
  max_retries = task.max_retries;
  metadata = (txt "stage", stage) ∷ (txt "cause", error_text cause) ∷ [];
  occurred_at = now;
}

-- the record to store for what the executor returned
unfoldable pub to_record : Option TaskResult → ExecutionResult
to_record none = record {
  thought = [];
  reply = [];
  chain_id = [];
  block_number = [];
  observations = [];
}
to_record (some r) = record {
  thought = r.thought;
  reply = r.reply;
  chain_id = r.chain_id;
  block_number = r.block_number;
  observations = r.observations;
}

unfoldable pub to_request : Task → TaskRequest
to_request task = record {
  id = [];
  goal = task.goal;
  chain_action = task.chain_action;
  address = task.address;
  metadata = clone_metadata task.metadata;
}

-- the fallback's observations, filled in where they are empty
unfoldable pub with_observations : ExecutionResult → GoError → ExecutionResult
with_observations fallback cause =
    if is_empty fallback.observations
    then record fallback { observations = txt "降级处理: " ++ error_text cause }
    else fallback

unfoldable pub failure_code : GoError → Code
failure_code cause = if code_of cause == code_unknown then code_task_processing else code_of cause

unfoldable pub is_retryable : GoError → Bool
is_retryable cause = retryable_error task_registry cause

unfoldable pub is_terminal : Task → GoError → Bool
unfolding is_retryable
is_terminal task cause = leb task.max_retries task.attempts || not (is_retryable cause)

abbrev stage_of : Bool → Bool → Text
stage_of terminal retryable =
    if terminal then txt "terminal" else if not retryable then txt "non_retryable" else txt "retry"

module _ {W : Type 0} (p : Processor W) (store : Store W) where
  emit_to : Option (Dispatcher W) → Task → Code → GoError → Text → Action W (Unit {0})
  unfolding alert_event
  emit_to none task code cause stage = pure tt
  emit_to (some alerter) task code cause stage = do
    now ← p.clock
    _ ← alerter.notify (alert_event task code cause stage now)
    pure tt

  unfoldable pub emit_alert : Task → Code → GoError → Text → Action W (Unit {0})
  unfolding emit_to
  emit_alert task code cause stage = emit_to p.alerter task code cause stage

  -- publish the id again; an error is wrapped
  unfoldable pub republish : Text → Text → Action W GoError
  republish id message = do
    e ← p.producer.publish id
    pure (if is_nil e then nil else unified (wrap task_registry code_task_publish e message []))

  -- MarkSucceeded returned an error: mark the task failed and publish it again
  unfoldable pub unmarked : Text → Code → GoError → Text → Action W GoError
  unfolding republish
  unmarked id code e message = do
    e' ← store.mark_failed id code (error_text e) false
    if is_nil e' then republish id message else pure e'

  -- from the MarkFailed call of handleExecutionFailure on
  unfoldable pub fail_task : Task → GoError → Action W GoError
  unfolding emit_alert republish failure_code is_terminal
  fail_task task cause =
      let code = failure_code cause in
      let retryable = is_retryable cause in
      let terminal = is_terminal task cause in
      do
        e ← store.mark_failed task.id code (error_text cause) terminal
        if is_nil e
            then (do
              emit_alert task code cause (stage_of terminal retryable)
              if retryable && not terminal
                  then republish task.id (txt "任务 " ++ task.id ++ txt " 重投失败")
                  else pure nil)
            else pure e

  -- what Recover returned
  unfoldable pub recovered : Task → GoError → Option ExecutionResult × GoError → Action W GoError
  unfolding emit_alert unmarked fail_task with_observations
  recovered task cause (none, nil) = fail_task task cause
  recovered task cause (some fallback, nil) = do
    e ← store.mark_succeeded task.id (with_observations fallback cause)
    if is_nil e
        then (do emit_alert task (failure_code cause) cause (txt "degraded"); pure nil)
        else unmarked task.id (failure_code cause) e (txt "任务 " ++ task.id ++ txt " 在降级失败后重投失败")
  recovered task cause (_, e) = do
    emit_alert task code_task_compensate
        (unified (wrap task_registry code_task_compensate e (txt "任务补偿失败") [])) (txt "compensate")
    fail_task task cause

  unfoldable pub try_recovery : Option (RecoveryHandler W) → Task → GoError → Action W GoError
  unfolding recovered fail_task
  try_recovery none task cause = fail_task task cause
  try_recovery (some handler) task cause =
      if is_retryable cause
      then fail_task task cause
      else (do r ← handler.recover task cause; recovered task cause r)

  unfoldable pub handle_execution_failure : Task → GoError → Action W GoError
  unfolding try_recovery
  handle_execution_failure task cause = try_recovery p.recovery task cause

  -- the executor returned no error
  unfoldable pub handle_result : Task → Option TaskResult → Action W GoError
  unfolding unmarked to_record
  handle_result task result = do
    e ← store.mark_succeeded task.id (to_record result)
    if is_nil e
        then pure nil
        else unmarked task.id code_task_processing e (txt "任务 " ++ task.id ++ txt " 在标记成功失败后重投失败")

  -- the execution of a claimed task and what follows
  unfoldable pub run_task : Executor W → Task → Action W GoError
  unfolding handle_result handle_execution_failure to_request
  run_task executor task = do
    r ← executor.execute (to_request task)
    if is_nil r.1 then handle_result task r.0 else handle_execution_failure task r.1

  unfoldable pub claim_failed : Text → GoError → Action W GoError
  unfolding emit_alert bare_task
  claim_failed id e =
      if is_error e err_task_not_found
        || is_error e err_task_completed
        || is_error e err_task_exhausted
      then pure nil
      else (do emit_alert (bare_task id) code_task_processing e (txt "claim"); pure e)

  unfoldable pub after_claim : Executor W → Text → Result Task → Action W GoError
  unfolding run_task claim_failed
  after_claim executor id (ok task) = run_task executor task
  after_claim executor id (err e) = claim_failed id e

  unfoldable pub handle_with : Executor W → Text → Action W GoError
  unfolding after_claim
  handle_with executor id = do found ← store.claim id; after_claim executor id found

module _ {W : Type 0} where
  handle_parts : Processor W → Option (Store W) → Option (Executor W) → Text → Action W GoError
  handle_parts p (some store) (some executor) id = handle_with p store executor id
  handle_parts p _ _ id =
      pure (unified (new task_registry code_initialization_failure (txt "处理器未初始化") []))

  unfoldable pub handle : Processor W → Text → Action W GoError
  unfolding handle_parts handle_with
  handle p id = handle_parts p p.store p.executor id

  start_with : Processor W → Option (Consumer W) → Action W GoError
  unfolding handle
  start_with p none =
      pure (unified (new task_registry code_initialization_failure (txt "未配置任务消费者") []))
  start_with p (some consumer) = consumer.consume p.worker_count (handle p)

  unfoldable pub start : Processor W → Action W GoError
  unfolding start_with
  start p = start_with p p.consumer
