-- ===== src/Tests/Reasoning.antt =====
-- The agent with a chain client that fails and a repository that is a list.
use open_mcp_chain.Prelude.{none, some, List, [], ◌∷◌, txt}
use open_mcp_chain.Prelude.Int.{pos}
use open_mcp_chain.Errors.Value.{nil, plain}
use open_mcp_chain.Task.Interfaces.{ok, err}
use open_mcp_chain.Storage.{TaskRecord}
use open_mcp_chain.Agent.{TaskRepository, Agent}
use open_mcp_chain.Agent.Execution.{execute}
use open_mcp_chain.Agent.Outcomes.{IsOutcome, execute-IsOutcome}
use open_mcp_chain.Tests.Samples.{request_of}

abbrev Records : Type 0
Records = List TaskRecord

abbrev records_repository : TaskRepository Records
records_repository = record { create = λ r w. (nil, r ∷ w); list_latest = λ limit w. (ok w, w) }

abbrev reasoner : Agent Records
reasoner = record {
  llm_client = some (record {
    generate = λ timeout req w. (ok (record { thought = txt "t"; reply = txt "r" }), w);
  });
  web3_client = some (record {
    fetch_chain_snapshot = λ w. (err (plain (txt "down")), w);
    execute_action = λ action address w. (ok (txt "7"), w);
  });
  task_storage = some records_repository;
  memory_depth = pos 5;
  knowledge = none;
  llm_timeout = pos 0;
}

execute-IsOutcome_example :
    IsOutcome
      (some records_repository)
      (request_of (txt "a"))
      (execute reasoner (λ w. (9, w)) (request_of (txt "a")) [])
execute-IsOutcome_example = execute-IsOutcome (request_of (txt "a")) reasoner (λ w. (9, w)) []
