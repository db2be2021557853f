-- ===== src/Tests/Worlds.antt =====
-- The processor on the in-memory deployment at concrete inputs.
use open_mcp_chain.Prelude.{
  ◌≡◌, refl, false, none, some, [], ◌∷◌, txt, text_beq, text_eq, inl, arith,
}
use open_mcp_chain.Prelude.Map.{lookup, insert}
use open_mcp_chain.Errors.Registry.{code_timeout}
use open_mcp_chain.Errors.Value.{GoError, nil, plain, unified, new, error_text}
use open_mcp_chain.Errors.Reading.{retryable_error}
use open_mcp_chain.Task.Types.{task_registry}
use open_mcp_chain.Task.Store.{claim, claimed, clone_task, completed, broken}
use open_mcp_chain.Task.Store.Claim.{Granted}
use open_mcp_chain.Task.Processor.{handle, to_record, failure_code, is_retryable}
use open_mcp_chain.Task.World.{World, Agent, now, memory_processor, drain}
use open_mcp_chain.Task.World.Outcomes.{Ends, HasRoom, handle_success, handle_failure}
use open_mcp_chain.Task.World.Progress.{retries_left, drain_total}
use open_mcp_chain.Tests.Samples.{task_a, task_b, world_of, answer_of, agent_of}

abbrev w : World (Unit {0})
w = world_of (task_a ∷ task_b ∷ []) (txt "b" ∷ []) false

a_stored : lookup (txt "a") w.store.tasks ≡ some task_a
unfolding lookup text_beq
a_stored = refl

a_claimed : claim (txt "a") (now w) w.store ≡ (
  (some (clone_task (claimed task_a 100)), nil),
  record { tasks = insert (txt "a") (claimed task_a 100) w.store.tasks },
)
unfolding claim lookup insert text_beq
a_claimed = refl

abbrev granted : Granted (txt "a") (now w) w.store
granted = record {
  task = task_a;
  found = a_stored;
  unlocked = refl;
  retry_left = omega arith;
  outcome = a_claimed;
}

abbrev timeout : GoError
timeout = unified (new task_registry code_timeout (txt "deadline") [])

abbrev broken_agent : Agent (Unit {0})
broken_agent = agent_of (none, timeout)

abbrev final : GoError
final = plain (txt "no such chain")

abbrev working_agent : Agent (Unit {0})
working_agent = agent_of (some answer_of, nil)

handle_success_example :
    let (e, w') = handle (memory_processor working_agent) (txt "a") w in
    (e ≡ nil)
    × Ends (txt "a") w w' (completed (to_record (some answer_of)) (claimed task_a 100) 101)
    × (w'.queue ≡ w.queue)
handle_success_example = handle_success working_agent (txt "a") w granted refl refl

w-HasRoom : HasRoom w.queue
w-HasRoom = record { opened = refl; ch_opened = refl; room = omega arith }

handle_failure_example :
    let (e, w') = handle (memory_processor broken_agent) (txt "a") w in
    (e ≡ nil)
    × Ends
        (txt "a")
        w
        w'
        (broken (failure_code timeout) (error_text timeout) (claimed task_a 100) 101)
    × (w'.queue.items ≡ txt "b" ∷ txt "a" ∷ [])
unfolding is_retryable retryable_error new task_registry lookup text_beq insert
handle_failure_example =
    handle_failure broken_agent (txt "a") w granted refl timeout refl refl (inl refl) w-HasRoom

abbrev busy : World (Unit {0})
busy = world_of (task_a ∷ task_b ∷ []) (txt "b" ∷ txt "a" ∷ txt "c" ∷ txt "b" ∷ []) false

drain_total_example :
    (w' : World (Unit {0})) × (drain 8 broken_agent busy ≡ some w') × (w'.queue.items ≡ [])
unfolding retries_left
drain_total_example = drain_total 8 broken_agent busy (omega arith)
