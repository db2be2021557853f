-- ===== src/Agent.antt =====
-- internal/agent/agent.go: the agent that executes a task, over any LLM client, chain client, repository and
-- knowledge base; `none` is nil.
pub mod Execution
pub mod Outcomes
use open_mcp_chain.Prelude.{
  ℕ, Bool, true, false, not, ◌&&◌, ◌||◌, Option, none, some, List, [], ◌∷◌, ◌++◌, map, Text, txt,
  text_eq, ◌==◌, is_empty, trim_space, if◌then◌else◌,
}
use open_mcp_chain.Prelude.Int.{ℤ, pos, leb_ℤ}
use open_mcp_chain.Errors.Registry.{
  code_initialization_failure, code_invalid_argument, code_timeout, code_executor_failure,
  code_storage_failure,
}
use open_mcp_chain.Errors.Value.{
  Error, error, GoError, nil, plain, wrapped, unified, typed_nil, is_nil, new, wrap, error_text,
}
use open_mcp_chain.Task.Types.{task_registry}
use open_mcp_chain.Task.Interfaces.{Action, pure, ◌>>=◌, Result, ok, err, TaskRequest}
use open_mcp_chain.Knowledge.{Snippet}
use open_mcp_chain.Storage.{TaskRecord}

pub record TaskResult : Type 0 where
  pub goal : Text
  pub chain_action : Text
  pub address : Text
  pub thought : Text
  pub reply : Text
  pub chain_id : Text
  pub block_number : Text
  pub observations : Text
  pub created_at : ℕ

-- internal/llm/llm.go
pub record HistoryEntry : Type 0 where
  pub goal : Text
  pub chain_action : Text
  pub address : Text
  pub reply : Text
  pub observations : Text
  pub created_at : ℕ

pub record KnowledgeCard : Type 0 where
  pub title : Text
  pub content : Text

pub record LlmRequest : Type 0 where
  pub goal : Text
  pub chain_action : Text
  pub address : Text
  pub history : List HistoryEntry
  pub knowledge : List KnowledgeCard

pub record LlmResponse : Type 0 where
  pub thought : Text
  pub reply : Text

-- web3.ChainSnapshot, without the notes
pub record ChainSnapshot : Type 0 where
  pub chain_id : Text
  pub block_number : Text

-- Generate with the timeout of its context, which is 0 for none. A client that returns neither a response nor
-- an error, on which the code panics, is outside the model.
pub record LlmClient (W : Type 0) : Type 0 where
  pub generate : ℤ → LlmRequest → Action W (Result LlmResponse)

pub record Web3Client (W : Type 0) : Type 0 where
  pub fetch_chain_snapshot : Action W (Result ChainSnapshot)
  pub execute_action : Text → Text → Action W (Result Text)

-- the methods of mysql.TaskRepository that the agent calls
pub record TaskRepository (W : Type 0) : Type 0 where
  pub create : TaskRecord → Action W GoError
  pub list_latest : ℤ → Action W (Result (List TaskRecord))

pub record Agent (W : Type 0) : Type 0 where
  pub llm_client : Option (LlmClient W)
  pub web3_client : Option (Web3Client W)
  pub task_storage : Option (TaskRepository W)
  pub memory_depth : ℤ
  pub knowledge : Option (Text → Text → List Snippet)
  pub llm_timeout : ℤ

abbrev pub default_memory_depth : ℤ
default_memory_depth = pos 5

module _ {W : Type 0} where
  unfoldable pub with_memory_depth : ℤ → Agent W → Agent W
  with_memory_depth depth a = record a { memory_depth = depth }

  unfoldable pub with_knowledge_provider : Option (Text → Text → List Snippet) → Agent W → Agent W
  with_knowledge_provider provider a = record a { knowledge = provider }

  unfoldable pub with_llm_timeout : ℤ → Agent W → Agent W
  with_llm_timeout timeout a = record a {
    llm_timeout = if leb_ℤ timeout (pos 0) then pos 0 else timeout;
  }

  -- the loop over the options
  unfoldable pub apply_agent_options : List (Option (Agent W → Agent W)) → Agent W → Agent W
  apply_agent_options [] a = a
  apply_agent_options (none ∷ opts) a = apply_agent_options opts a
  apply_agent_options (some opt ∷ opts) a = apply_agent_options opts (opt a)

  unfoldable pub new_agent :
      Option (LlmClient W)
      → Option (Web3Client W)
      → Option (TaskRepository W)
      → List (Option (Agent W → Agent W))
      → Agent W
  unfolding apply_agent_options
  new_agent llm web3 repo opts =
      let a = apply_agent_options opts (record {
        llm_client = llm;
        web3_client = web3;
        task_storage = repo;
        memory_depth = default_memory_depth;
        knowledge = none;
        llm_timeout = pos 0;
      }) in
      if leb_ℤ a.memory_depth (pos 0) then record a { memory_depth = default_memory_depth } else a
