-- ===== src/Task/Interfaces.antt =====
-- The interfaces of internal/task (store.go, queue.go, recovery.go, the Executor of processor.go), and the
-- requests, results and alerts that pass through them. A method reads and changes a world `W`.
use open_mcp_chain.Prelude.{ℕ, Bool, List, Option, some, Text}
use open_mcp_chain.Prelude.Map.{Map}
use open_mcp_chain.Prelude.Int.{ℤ}
use open_mcp_chain.Errors.Registry.{Code, Severity}
use open_mcp_chain.Errors.Value.{GoError, nil}
use open_mcp_chain.Task.Types.{ExecutionResult, Metadata, Task, TaskStats}
use open_mcp_chain.Task.Options.{ListOptions}

-- An action on a world.
abbrev pub Action : Type 0 → Type 0 → Type 0
Action W A = W → A × W

unfoldable pub pure : {W A : Type 0} → A → Action W A
pure a w = (a, w)

infixl 10 ◌>>=◌ ◌>>◌
-- opening this opens `pure` too
unfoldable pub ◌>>=◌ : {W A B : Type 0} → Action W A → (A → Action W B) → Action W B
unfolding pure
◌>>=◌ m f w = let (a, w') = m w in f a w'

abbrev pub ◌>>◌ : {W A B : Type 0} → Action W A → Action W B → Action W B
m >> n = m >>= λ _. n

-- What a method with the results (*Task, error) hands to a caller that looks at the error first.
pub data Result (A : Type 0) : Type 0 where
  ok : A → Result A
  err : GoError → Result A

-- A pair of neither a value nor an error, on which the callers would panic, does not come from a store.
abbrev pub from_pair : {A : Type 0} → Option A × GoError → Result A
from_pair (some a, nil) = ok a
from_pair (_, e) = err e

-- agent.TaskRequest
pub record TaskRequest : Type 0 where
  pub id : Text
  pub goal : Text
  pub chain_action : Text
  pub address : Text
  pub metadata : Option Metadata

-- agent.TaskResult, the fields that the processor reads
pub record TaskResult : Type 0 where
  pub thought : Text
  pub reply : Text
  pub chain_id : Text
  pub block_number : Text
  pub observations : Text

-- alerting.Event, without the channel, which the processor does not set
pub record Event : Type 0 where
  pub code : Code
  pub message : Text
  pub severity : Severity
  pub task_id : Text
  pub attempts : ℕ
  pub max_retries : ℕ
  pub metadata : Map Text Text
  pub occurred_at : ℕ

pub record Store (W : Type 0) : Type 0 where
  pub create : Task → Action W GoError
  pub get : Text → Action W (Result Task)
  pub claim : Text → Action W (Result Task)
  pub mark_succeeded : Text → ExecutionResult → Action W GoError
  pub mark_failed : Text → Code → Text → Bool → Action W GoError
  pub list : ListOptions → Action W (Result (List Task))
  pub stats : ListOptions → Action W (Result TaskStats)
  pub close : Action W GoError

pub record Producer (W : Type 0) : Type 0 where
  pub publish : Text → Action W GoError
  pub close : Action W GoError

-- The number of workers, and the handler of an id.
pub record Consumer (W : Type 0) : Type 0 where
  pub consume : ℤ → (Text → Action W GoError) → Action W GoError

pub record Executor (W : Type 0) : Type 0 where
  pub execute : TaskRequest → Action W (Option TaskResult × GoError)

pub record RecoveryHandler (W : Type 0) : Type 0 where
  pub recover : Task → GoError → Action W (Option ExecutionResult × GoError)

pub record Dispatcher (W : Type 0) : Type 0 where
  pub notify : Event → Action W GoError
