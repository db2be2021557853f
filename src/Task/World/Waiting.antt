-- ===== src/Task/World/Waiting.antt =====
-- WaitUntilCompleted on the in-memory deployment, while a worker takes the messages.
use open_mcp_chain.Prelude.{
  ℕ, suc, ◌≡◌, ◌≤◌, refl, ◌∙◌, true, false, Option, none, some, [], Text, text_eq, text_beq_iff,
  ◌<◌, is_empty, trim_space, arith,
}
use open_mcp_chain.Prelude.Map.{lookup, insert, lookup-insert_self}
use open_mcp_chain.Errors.Value.{GoError, nil}
use open_mcp_chain.Task.Types.{Task, succeeded}
use open_mcp_chain.Task.Store.{claimed, clone_task, completed, created, get as store_get}
use open_mcp_chain.Task.Store.Claim.{granted}
use open_mcp_chain.Task.Queue.{receive}
use open_mcp_chain.Task.Interfaces.{Action, pure, ◌>>=◌, ok, TaskRequest, TaskResult}
use open_mcp_chain.Task.Service.{
  Service, submit, new_task, wait_until_completed, get as service_get, is_finished,
}
use open_mcp_chain.Task.Processor.{handle, to_request, to_record}
use open_mcp_chain.Task.World.{World, Agent, now, tick, get, memory_service, memory_processor}
use open_mcp_chain.Task.World.Outcomes.{HasRoom, handle_success}
use open_mcp_chain.Task.World.Submission.{submitted, submit_world}

-- Between two polls a worker takes one message, if there is one; the context does not end.
abbrev pub work : {E : Type 0} → Agent E → Action (World E) (Option GoError)
work agent w = elim (receive w.queue) [
  | none ↦ (none, w)
  | some (id, q) ↦ (none, (handle (memory_processor agent) id (record w { queue = q })).1)
]

module _ {W : Type 0} (rounds : ℕ) (between : Action W (Option GoError)) (service : Service W)
    (id : Text) (w w' : W) where
  wait_end :
      (t : Task)
      → service_get service id w ≡ (ok t, w')
      → is_finished t.status ≡ true
      → wait_until_completed (suc rounds) between service id w ≡ (some (ok t), w')
  unfolding wait_until_completed ◌>>=◌ pure
  wait_end t got finished = ground arith

  wait_more :
      (w'' : W) (t : Task)
      → service_get service id w ≡ (ok t, w')
      → is_finished t.status ≡ false
      → between w' ≡ (none, w'')
      → wait_until_completed (suc rounds) between service id w
        ≡ wait_until_completed rounds between service id w''
  unfolding wait_until_completed ◌>>=◌ pure
  wait_more w'' t got unfinished ended = ground (arith)

module _ {E : Type 0} (agent : Agent E) (max_retries : ℕ) (id : Text) where
  get_stored :
      (w : World E) (t : Task)
      → lookup id w.store.tasks ≡ some t
      → service_get (memory_service max_retries) id w ≡ (ok (clone_task t), w)
  unfolding service_get get store_get
  get_stored w t found = rw (found, store_get)

  -- A task that is not finished at the first poll, and is at the second.
  wait_two :
      (rounds : ℕ) (w w' : World E) (t t' : Task)
      → lookup id w.store.tasks ≡ some t
      → is_finished (clone_task t).status ≡ false
      → work agent w ≡ (none, w')
      → lookup id w'.store.tasks ≡ some t'
      → is_finished (clone_task t').status ≡ true
      → (wait_until_completed (suc (suc rounds)) (work agent) (memory_service max_retries) id w).0
        ≡ some (ok (clone_task t'))
  wait_two rounds w w' t t' found unfinished worked found' finished =
      let service = memory_service max_retries in
      rw
        (
          wait_more (suc rounds) (work agent) service id w w w' (clone_task t)
              (get_stored w t found) unfinished worked,
          wait_end rounds (work agent) service id w' w' (clone_task t') (get_stored w' t' found')
              finished,
        )
        refl

-- A submission to an idle deployment, which the agent executes without an error.
module _ {E : Type 0} (agent : Agent E) (max_retries : ℕ) (fresh : Text) (req : TaskRequest)
    (w : World E) where
  abbrev id : Text
  id = trim_space req.id

  -- The task as the worker claims it, and what the agent makes of it.
  abbrev pub started : Task
  started = claimed (submitted max_retries req w) (now (tick w))

  abbrev pub executed : (Option TaskResult × GoError) × E
  executed = agent.execute (to_request (clone_task started)) w.env

  -- The world once the worker has received the message.
  abbrev received : World E
  received = record (tick w) {
    store = record { tasks = insert id (submitted max_retries req w) w.store.tasks };
    queue = record w.queue { items = [] };
  }

  first_found : lookup id received.store.tasks ≡ some (submitted max_retries req w)
  first_found = lookup-insert_self id (submitted max_retries req w) w.store.tasks

  retries_left :
      1 ≤ max_retries
      → (submitted max_retries req w).attempts < (submitted max_retries req w).max_retries
  unfolding created new_task
  retries_left left = omega arith

  -- The world once the message has been handled, and the task in it.
  abbrev handled : World E
  handled = (handle (memory_processor agent) id received).1

  abbrev finished : Task
  finished = completed (to_record executed.0.0) started (now (tick (tick w)))

  finished_found :
      1 ≤ max_retries → executed.0.1 ≡ nil → lookup id handled.store.tasks ≡ some finished
  unfolding created new_task
  finished_found left fine =
      let g =
        granted id (now received) received.store (submitted max_retries req w) first_found refl
          (retries_left left) in
      let (_, ends, _) = handle_success agent id received g refl fine in
      let same = (text_beq_iff id id).1 refl in ends id ∙ rw same refl

  -- A task with a goal and an id that is not stored is submitted to a deployment with a queue that is open and
  -- empty and has a place, and retries are allowed; a worker takes a message between two polls, and the agent
  -- executes the task without an error. Then WaitUntilCompleted, allowed two polls or more, returns the task:
  -- succeeded, with the id and the goal of the request, after one attempt, with the result of the agent.
  pub wait-submit :
      (rounds : ℕ)
      → 1 ≤ max_retries
      → is_empty (trim_space req.goal) ≡ false
      → is_empty (trim_space req.id) ≡ false
      → lookup (trim_space req.id) w.store.tasks ≡ none
      → HasRoom w.queue
      → w.queue.items ≡ []
      → executed.0.1 ≡ nil
      → let w₁ = (submit (memory_service max_retries) fresh req w).1 in
        (t : Task) × ((wait_until_completed
            (suc (suc rounds))
            (work agent)
            (memory_service max_retries)
            id
            w₁).0
          ≡ some (ok t))
        × (t.status ≡ succeeded)
        × (t.id ≡ trim_space req.id)
        × (t.goal ≡ req.goal)
        × (t.attempts ≡ 1)
        × (t.result ≡ some (to_record executed.0.0))
  unfolding clone_task completed claimed created new_task receive
  wait-submit rounds left goal named free room idle fine =
      rw (submit_world max_retries fresh req w goal named free room, idle)
        (
          clone_task finished,
          wait_two agent max_retries id rounds _ handled (submitted max_retries req w) finished
              first_found refl refl (finished_found left fine) refl,
          refl,
          refl,
          refl,
          refl,
          refl,
        )
