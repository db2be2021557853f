-- ===== src/Tests/Samples.antt =====
-- Tasks, stores and worlds that the tests share.
use Prim.Native.Nat.{◌+◌}
use open_mcp_chain.Prelude.{
  arith, refl, ℕ, Bool, false, Option, none, some, List, [], ◌∷◌, Text, txt,
}
use open_mcp_chain.Prelude.Int.{pos, negsuc}
use open_mcp_chain.Errors.Value.{GoError, nil, plain}
use open_mcp_chain.Task.Types.{pending, running, failed, ExecutionResult, Task}
use open_mcp_chain.Task.Options.{ListOptions, updated_asc}
use open_mcp_chain.Task.Store.{MemoryStore}
use open_mcp_chain.Task.Store.Valid.{IsValidTask}
use open_mcp_chain.Task.Queue.{MemoryQueue}
use open_mcp_chain.Task.Interfaces.{TaskRequest, TaskResult}
use open_mcp_chain.Task.World.{World, Agent}

abbrev pub fresh_task : Text → ℕ → Task
fresh_task id at = record {
  id = id;
  goal = txt "balance";
  chain_action = txt "eth_getBalance";
  address = txt "0x1";
  metadata = some ((txt "chain", txt "main") ∷ []);
  status = pending;
  attempts = 0;
  max_retries = 2;
  last_error = [];
  error_code = [];
  result = none;
  created_at = at;
  updated_at = at;
}

abbrev pub task_a : Task
task_a = fresh_task (txt "a") 5

abbrev pub task_b : Task
task_b = fresh_task (txt "b") 5

abbrev pub held_a : Task
held_a = record task_a { status = running; attempts = 1 }

abbrev pub done : ExecutionResult
done = record {
  thought = txt "t";
  reply = txt "r";
  chain_id = txt "1";
  block_number = txt "7";
  observations = [];
}

abbrev pub store_of : List Task → MemoryStore
store_of ts = record { tasks = entries ts }
  where
    entries : List Task → List (Text × Task)
    entries [] = []
    entries (t ∷ ts) = (t.id, t) ∷ entries ts

abbrev pub queue_of : List Text → Bool → MemoryQueue
queue_of ids shut = record { items = ids; size = 2; ch_closed = shut; closed = shut }

abbrev pub world_of : List Task → List Text → Bool → World (Unit {0})
world_of ts ids shut = record {
  store = store_of ts;
  queue = queue_of ids shut;
  clock = λ n. 100 + n;
  ticks = 0;
  context_error = plain (txt "context canceled");
  alerts = [];
  env = tt;
}

abbrev pub answer_of : TaskResult
answer_of = record {
  thought = txt "t";
  reply = txt "r";
  chain_id = txt "1";
  block_number = txt "7";
  observations = txt "o";
}

abbrev pub agent_of : Option TaskResult × GoError → Agent (Unit {0})
agent_of answer = record { execute = λ req e. (answer, e); recover = none }

-- A recovery handler that answers every failure with `done`.
abbrev pub recovering_agent : GoError → Agent (Unit {0})
recovering_agent e = record {
  execute = λ req env. ((none, e), env);
  recover = some (λ task cause env. ((some done, nil), env));
}

abbrev pub request_of : Text → TaskRequest
request_of id = record {
  id = id;
  goal = txt "balance";
  chain_action = txt "eth_getBalance";
  address = txt "0x1";
  metadata = none;
}

abbrev pub some_options : ListOptions
some_options = record {
  limit = pos 0;
  offset = negsuc 1;
  statuses = pending ∷ pending ∷ failed ∷ [];
  updated_gte = pos 0;
  updated_lte = pos 0;
  has_result = some false;
  order = updated_asc;
  query = txt " BAL ";
}

pub a-IsValidTask : IsValidTask (txt "a") task_a
a-IsValidTask = record {
  keyed = refl;
  bounded = omega arith;
  running_attempted = λ h. absurd (cc);
  succeeded_result = λ h. absurd (cc);
}

pub b-IsValidTask : IsValidTask (txt "b") task_b
b-IsValidTask = record {
  keyed = refl;
  bounded = omega arith;
  running_attempted = λ h. absurd (cc);
  succeeded_result = λ h. absurd (cc);
}
