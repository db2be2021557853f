-- ===== src/Task/World/Shutdown.antt =====
-- The service after its Close.
use open_mcp_chain.Prelude.{
  ℕ, ◌≡◌, refl, true, false, none, Text, text_eq, arith, is_empty, trim_space,
}
use open_mcp_chain.Prelude.Map.{lookup}
use open_mcp_chain.Errors.Value.{nil}
use open_mcp_chain.Task.Queue.{MemoryQueue, close as queue_close}
use open_mcp_chain.Task.Interfaces.{TaskRequest, err, ◌>>=◌}
use open_mcp_chain.Task.Service.{submit, close as service_close}
use open_mcp_chain.Task.World.{World, memory_service, close_queue}
use open_mcp_chain.Task.World.Submission.{publish_error, submit-unpublished}

queue_close-closed : (q : MemoryQueue) → (queue_close q).closed ≡ true
unfolding queue_close
queue_close-closed q = ground arith

-- Close of the service on the in-memory deployment returns nil and leaves the store; a submission after it,
-- with a goal and an id that is not stored, is refused with TASK_PUBLISH_FAILED.
pub close-submit :
    {E : Type 0} (max_retries : ℕ) (fresh : Text) (req : TaskRequest) (w : World E)
    → is_empty (trim_space req.goal) ≡ false
    → is_empty (trim_space req.id) ≡ false
    → lookup (trim_space req.id) w.store.tasks ≡ none
    → let (e, w') = service_close (memory_service max_retries) w in
      (e ≡ nil)
      × (w'.store ≡ w.store)
      × ((submit (memory_service max_retries) fresh req w').0 ≡ err publish_error)
unfolding service_close ◌>>=◌ close_queue
close-submit max_retries fresh req w goal named free =
    let shut = record w { queue = queue_close w.queue } in
    let (refused, _, _, _) =
      submit-unpublished max_retries fresh req shut goal named free (queue_close-closed w.queue) in
    (refl, refl, refused)
