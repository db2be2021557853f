-- ===== src/Tests/Submissions.antt =====
-- Submissions at concrete inputs.
use open_mcp_chain.Prelude.{
  ◌≡◌, refl, true, false, none, some, [], ◌∷◌, txt, text_beq, text_eq, arith, is_empty, trim_space,
}
use open_mcp_chain.Prelude.Map.{lookup}
use open_mcp_chain.Task.Types.{Task, succeeded}
use open_mcp_chain.Errors.Value.{nil}
use open_mcp_chain.Task.World.Shutdown.{close-submit}
use open_mcp_chain.Task.Service.{close as service_close}
use open_mcp_chain.Task.Store.{clone_task}
use open_mcp_chain.Task.Interfaces.{ok, err}
use open_mcp_chain.Task.Service.{submit, wait_until_completed}
use open_mcp_chain.Task.Processor.{to_record}
use open_mcp_chain.Task.World.Outcomes.{HasRoom}
use open_mcp_chain.Task.World.Waiting.{work, wait-submit}
use open_mcp_chain.Api.{Request}
use open_mcp_chain.Task.World.{World, Agent, memory_service}
use open_mcp_chain.Task.World.Submission.{
  publish_error, unpublished, submit_existing, submit-unpublished,
}
use open_mcp_chain.Tests.Samples.{task_a, task_b, world_of, request_of, agent_of, answer_of}

abbrev w : World (Unit {0})
w = world_of (task_a ∷ task_b ∷ []) (txt "b" ∷ []) false

abbrev shut : World (Unit {0})
shut = world_of (task_a ∷ []) [] true

goal_given : is_empty (trim_space (request_of []).goal) ≡ false
unfolding trim_space
goal_given = refl

a_named : is_empty (trim_space (request_of (txt " a")).id) ≡ false
unfolding trim_space
a_named = refl

c_named : is_empty (trim_space (request_of (txt "c ")).id) ≡ false
unfolding trim_space
c_named = refl

a_stored : lookup (trim_space (txt " a")) w.store.tasks ≡ some task_a
unfolding trim_space lookup text_beq
a_stored = refl

c_free : lookup (trim_space (txt "c ")) w.store.tasks ≡ none
unfolding trim_space lookup text_beq
c_free = refl

c_free_shut : lookup (trim_space (txt "c ")) shut.store.tasks ≡ none
unfolding trim_space lookup text_beq
c_free_shut = refl

submit_existing_example :
    submit (memory_service 3) (txt "u") (request_of (txt " a")) w ≡ (ok (clone_task task_a), w)
submit_existing_example =
    submit_existing 3 (txt "u") (request_of (txt " a")) w goal_given task_a a_named a_stored

submit-unpublished_example :
    let req = request_of (txt "c ") in
    let (r, w') = submit (memory_service 3) (txt "u") req shut in
    let stored = unpublished 3 req shut in
    (r ≡ err publish_error)
    × (w'.queue ≡ shut.queue)
    × (lookup (txt "c") w'.store.tasks ≡ some stored)
    × (submit (memory_service 3) (txt "u") req w' ≡ (ok (clone_task stored), w'))
unfolding trim_space
submit-unpublished_example =
    submit-unpublished 3 (txt "u") (request_of (txt "c ")) shut goal_given c_named c_free_shut refl

-- The request of a client that creates the task c, which is not stored.
abbrev post : Request
post = record {
  method = txt "POST";
  path = txt "/api/v1/tasks";
  query = [];
  body = some (request_of (txt "c "));
}

abbrev idle : World (Unit {0})
idle = world_of (task_a ∷ []) [] false

c_free_idle : lookup (trim_space (txt "c ")) idle.store.tasks ≡ none
unfolding trim_space lookup text_beq
c_free_idle = refl

idle-HasRoom : HasRoom idle.queue
idle-HasRoom = record { opened = refl; ch_opened = refl; room = omega arith }

abbrev agent : Agent (Unit {0})
agent = agent_of (some answer_of, nil)

wait-submit_example :
    let req = request_of (txt "c ") in
    let w₁ = (submit (memory_service 3) (txt "u") req idle).1 in
    (t : Task) × ((wait_until_completed 5 (work agent) (memory_service 3) (trim_space req.id) w₁).0
      ≡ some (ok t))
    × (t.status ≡ succeeded)
    × (t.id ≡ trim_space req.id)
    × (t.goal ≡ req.goal)
    × (t.attempts ≡ 1)
    × (t.result ≡ some (to_record (some answer_of)))
wait-submit_example =
    wait-submit agent 3 (txt "u") (request_of (txt "c ")) idle 3 (omega arith) goal_given c_named
      c_free_idle idle-HasRoom refl refl

close-submit_example :
    let req = request_of (txt "c ") in
    let (e, w') = service_close (memory_service 3) w in
    (e ≡ nil)
    × (w'.store ≡ w.store)
    × ((submit (memory_service 3) (txt "u") req w').0 ≡ err publish_error)
close-submit_example = close-submit 3 (txt "u") (request_of (txt "c ")) w goal_given c_named c_free
