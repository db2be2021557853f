-- ===== src/Task/World/Outcomes.antt =====
-- What one message does to the store and the queue, on each way through the processor.
use Prim.Native.Nat.{◌+◌, ◌<◌}
use mathlib.Core.Path.{subst}
use open_mcp_chain.Prelude.{
  ◌≡◌, refl, ◌∙◌, Bool, true, false, not, ◌&&◌, ◌⊎◌, inl, inr, Option, none, some, [], ◌∷◌, ◌++◌,
  Text, text_eq, arith, length, if◌then◌else◌, ◌==◌, Bool-cases, ltb,
}
use open_mcp_chain.Prelude.Map.{Map, lookup, insert, lookup-insert, lookup-insert_self}
use open_mcp_chain.Errors.Value.{GoError, nil, is_nil, error_text}
use open_mcp_chain.Task.Types.{ExecutionResult, Task}
use open_mcp_chain.Task.Store.{
  claimed, clone_task, completed, broken, mark_succeeded as store_mark_succeeded,
  mark_failed as store_mark_failed,
}
use open_mcp_chain.Task.Store.Claim.{Granted}
use open_mcp_chain.Task.Queue.{MemoryQueue, publish as queue_publish}
use open_mcp_chain.Task.Interfaces.{◌>>=◌, Store, TaskResult}
use open_mcp_chain.Task.Processor.{
  Processor, to_request, to_record, emit_alert, failure_code, is_retryable, is_terminal, fail_task,
  try_recovery, handle_execution_failure, handle_result, run_task, after_claim, handle_with, handle,
}
use open_mcp_chain.Task.World.{
  World, Agent, now, tick, claim, mark_succeeded, mark_failed, publish, read_clock, notify,
  memory_store, executor_of, recovery_of, memory_processor,
}

-- The queue takes one more message.
pub record HasRoom (q : MemoryQueue) : Type 0 where
  pub opened : q.closed ≡ false
  pub ch_opened : q.ch_closed ≡ false
  pub room : length q.items < q.size

abbrev pub retries_again : Task → GoError → Bool
retries_again task cause = is_retryable cause && not (is_terminal task cause)

pub publish_room :
    {E : Type 0} (id : Text) (w : World E)
    → HasRoom w.queue
    → publish id w ≡ (nil, record w { queue = record w.queue { items = w.queue.items ++ id ∷ [] } })
unfolding publish queue_publish
publish_room id w h = ground arith

pub mark_failed_found :
    {E : Type 0} (id code text : Text) (terminal : Bool) (w : World E) (t : Task)
    → lookup id w.store.tasks ≡ some t
    → mark_failed id code text terminal w ≡ (
      nil,
      record (tick w) {
        store = record { tasks = insert id (broken code text t (now w)) w.store.tasks };
      },
    )
unfolding mark_failed store_mark_failed
mark_failed_found id code text terminal w t found = rw (found, store_mark_failed)

module _ {E : Type 0} (agent : Agent E) where
  abbrev p : Processor (World E)
  p = memory_processor agent

  abbrev s : Store (World E)
  s = memory_store

  mark_succeeded_found :
      (id : Text) (result : ExecutionResult) (w : World E) (t : Task)
      → lookup id w.store.tasks ≡ some t
      → mark_succeeded id result w ≡ (
        nil,
        record (tick w) {
          store = record { tasks = insert id (completed result t (now w)) w.store.tasks };
        },
      )
  unfolding mark_succeeded store_mark_succeeded
  mark_succeeded_found id result w t found = rw (found, store_mark_succeeded)

  fail_task_lem :
      (task : Task) (cause : GoError) (w : World E) (t : Task)
      → lookup task.id w.store.tasks ≡ some t
      → HasRoom w.queue
      → let (e, w') = fail_task p s task cause w in
        (e ≡ nil)
        × (w'.store.tasks
            ≡ insert task.id
                (broken (failure_code cause) (error_text cause) t (now w))
                w.store.tasks)
        × (w'.queue.items
            ≡ (if retries_again task cause then w.queue.items ++ task.id ∷ [] else w.queue.items))
  unfolding fail_task emit_alert read_clock notify ◌>>=◌
  fail_task_lem task cause w t found room =
      rw
        (mark_failed_found task.id (failure_code cause) (error_text cause) (is_terminal task cause)
          w t found)
        (elim (Bool-cases (retries_again task cause)) [
          | inl again ↦ rw again (rw (publish_room, room) (refl, refl, refl))
          | inr over ↦ rw over (refl, refl, refl)
        ])

  handle_result_lem :
      (task : Task) (r : Option TaskResult) (w : World E) (t : Task)
      → lookup task.id w.store.tasks ≡ some t
      → let (e, w') = handle_result p s task r w in
        (e ≡ nil)
        × (w'.store.tasks ≡ insert task.id (completed (to_record r) t (now w)) w.store.tasks)
        × (w'.queue ≡ w.queue)
  unfolding handle_result ◌>>=◌
  handle_result_lem task r w t found =
      rw (mark_succeeded_found task.id (to_record r) w t found) (refl, refl, refl)

  -- The world after a granted claim.
  abbrev pub after_grant : (id : Text) (w : World E) → Task → World E
  after_grant id w t = record (tick w) {
    store = record { tasks = insert id (claimed t (now w)) w.store.tasks };
  }

  handle-run_task :
      (id : Text) (w : World E) (g : Granted id (now w) w.store)
      → handle p id w
        ≡ run_task p s
            (executor_of agent)
            (clone_task (claimed g.task (now w)))
            (after_grant id w g.task)
  unfolding handle handle_with after_claim claim ◌>>=◌
  handle-run_task id w g = rw (g.outcome)

abbrev Recovery : Type 0 → Type 0
Recovery E = Task → GoError → E → (Option ExecutionResult × GoError) × E

try_recovery_skipped :
    {E : Type 0} (agent : Agent E) (r : Option (Recovery E)) (task : Task) (cause : GoError)
    → (r ≡ none) ⊎ (is_retryable cause ≡ true)
    → try_recovery (p agent) (s agent) (recovery_of r) task cause
      ≡ fail_task (p agent) (s agent) task cause
unfolding try_recovery
try_recovery_skipped agent none task cause h = refl
try_recovery_skipped agent (some r) task cause (inl e) = absurd (cc)
try_recovery_skipped agent (some r) task cause (inr e) = rw e

-- After a message the store holds `t` under the message's id, and all else is as it was.
abbrev pub Ends : {E : Type 0} → Text → World E → World E → Task → Type 0
Ends id w w' t =
    (j : Text) → lookup j w'.store.tasks ≡ (if id == j then some t else lookup j w.store.tasks)

insert-insert :
    (id key : Text) (m m' : Map Text Task) (t' t'' : Task)
    → key ≡ id
    → m' ≡ insert key t'' (insert id t' m)
    → (j : Text) → lookup j m' ≡ (if id == j then some t'' else lookup j m)
insert-insert id key m m' t' t'' same e j =
    let e' = subst (λ k. m' ≡ insert k t'' (insert id t' m)) same e in
    rw e' (ground (arith, lookup-insert id j t'' (insert id t' m), lookup-insert id j t' m))

module _ {E : Type 0} (agent : Agent E) (id : Text) (w : World E) (g : Granted id (now w) w.store)
    (keyed : g.task.id ≡ id) where
  -- The copy that the processor works on, and what the agent makes of it.
  abbrev pub copy : Task
  copy = clone_task (claimed g.task (now w))

  abbrev pub answer : (Option TaskResult × GoError) × E
  answer = agent.execute (to_request copy) w.env

  abbrev w₂ : World E
  w₂ = record (after_grant agent id w g.task) { env = answer.1 }

  copy_id : copy.id ≡ id
  unfolding clone_task claimed
  copy_id = keyed

  found : lookup copy.id w₂.store.tasks ≡ some (claimed g.task (now w))
  found = rw copy_id (lookup-insert_self id (claimed g.task (now w)) w.store.tasks)

  -- A message whose claim is granted, for a task stored under its own id, and which the agent executes
  -- without an error: the handler returns nil, the task is completed with the agent's answer, every other
  -- task and the queue are as before.
  pub handle_success :
      answer.0.1 ≡ nil
      → let (e, w') = handle (memory_processor agent) id w in
        (e ≡ nil)
        × Ends id w w' (completed (to_record answer.0.0) (claimed g.task (now w)) (now w₂))
        × (w'.queue ≡ w.queue)
  unfolding run_task ◌>>=◌
  handle_success fine =
      let (e, tasks, queue) =
        handle_result_lem agent copy answer.0.0 w₂ (claimed g.task (now w)) found in
      rw (handle-run_task agent id w g, fine)
        (
          e,
          insert-insert id copy.id w.store.tasks _ (claimed g.task (now w)) _ copy_id tasks,
          queue,
        )

  retries_again-copy :
      (cause : GoError)
      → retries_again copy cause
        ≡ (is_retryable cause && ltb (g.task.attempts + 1) g.task.max_retries)
  unfolding is_terminal clone_task claimed
  retries_again-copy cause = ground arith

  requeued :
      (cause : GoError)
      → (if retries_again copy cause then w.queue.items ++ copy.id ∷ [] else w.queue.items) ≡ (
          if is_retryable cause && ltb (g.task.attempts + 1) g.task.max_retries
          then w.queue.items ++ id ∷ []
          else w.queue.items)
  requeued cause = rw (retries_again-copy cause, copy_id)

  -- A message whose claim is granted, for a task stored under its own id, whose execution fails, with a
  -- retryable error or with no recovery handler configured, while the queue is open and has room: the
  -- handler returns nil; the task is marked failed with the code and the text of the error; every other
  -- task is as before; and the id is queued again, behind all that is queued, exactly if the error is
  -- retryable and the task has attempts left.
  pub handle_failure :
      (cause : GoError)
      → answer.0.1 ≡ cause
      → is_nil cause ≡ false
      → (agent.recover ≡ none) ⊎ (is_retryable cause ≡ true)
      → HasRoom w.queue
      → let (e, w') = handle (memory_processor agent) id w in
        (e ≡ nil)
        × Ends id w w'
            (broken (failure_code cause) (error_text cause) (claimed g.task (now w)) (now w₂))
        × (w'.queue.items ≡ (
            if is_retryable cause && ltb (g.task.attempts + 1) g.task.max_retries
            then w.queue.items ++ id ∷ []
            else w.queue.items))
  unfolding run_task handle_execution_failure ◌>>=◌
  handle_failure cause failed fails skipped room =
      let (e, tasks, items) =
        fail_task_lem agent copy cause w₂ (claimed g.task (now w)) found room in
      let ends =
        insert-insert id copy.id w.store.tasks _ (claimed g.task (now w)) _ copy_id tasks in
      rw
        (
          handle-run_task agent id w g,
          failed,
          fails,
          try_recovery_skipped agent agent.recover copy cause skipped,
        )
        (e, ends, items ∙ requeued cause)
