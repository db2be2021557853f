-- ===== src/Task/Processor/Workers.antt =====
-- How many workers a processor has.
use open_mcp_chain.Prelude.{ℕ, ◌≡◌, true, Option, List, arith}
use open_mcp_chain.Prelude.Int.{pos, leb_ℤ}
use open_mcp_chain.Task.Interfaces.{Action, Store, Producer, Consumer, Executor}
use open_mcp_chain.Task.Processor.{ProcessorOption, new_processor}

-- A processor made by NewProcessor has at least one worker, whatever its options are, those that no function
-- of the package returns included.
pub new_processor_lem :
    {W : Type 0} (executor : Option (Executor W)) (store : Option (Store W))
    (consumer : Option (Consumer W)) (producer : Producer W) (clock : Action W ℕ)
    (opts : List (Option (ProcessorOption W)))
    → leb_ℤ (pos 1) (new_processor executor store consumer producer clock opts).worker_count ≡ true
unfolding new_processor
new_processor_lem executor store consumer producer clock opts = ground arith
