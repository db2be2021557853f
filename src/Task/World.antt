-- ===== src/Task/World.antt =====
-- The in-memory deployment, as cmd/openmcpd builds it without MySQL and Redis: MemoryStore and MemoryQueue
-- behind the interfaces of the service and the processor, and a worker of Consume that takes one id after
-- the other.
pub mod Outcomes
pub mod Progress
pub mod Submission
pub mod Shutdown
pub mod Waiting
use Prim.Native.Nat.{◌+◌}
use open_mcp_chain.Prelude.{
  ℕ, zero, suc, Bool, true, false, Option, none, some, List, [], ◌∷◌, ◌++◌, Text, txt,
}
use open_mcp_chain.Errors.Value.{GoError, nil, plain}
use open_mcp_chain.Task.Types.{ExecutionResult, Task, TaskStats}
use open_mcp_chain.Task.Store.{
  MemoryStore, create as store_create, get as store_get, claim as store_claim,
  mark_succeeded as store_mark_succeeded, mark_failed as store_mark_failed,
}
use open_mcp_chain.Task.Queue.{
  MemoryQueue, Sent, returned, waits, panics, sends, receive, publish as queue_publish,
  close as queue_close,
}
use open_mcp_chain.Prelude.Int.{pos}
use open_mcp_chain.Task.Options.{ListOptions}
use open_mcp_chain.Task.Listing.{list as store_list}
use open_mcp_chain.Task.Stats.{stats as store_stats}
use open_mcp_chain.Task.Interfaces.{
  ok, err, Action, Result, from_pair, TaskRequest, TaskResult, Event, Store, Producer, Executor,
  RecoveryHandler, Dispatcher,
}
use open_mcp_chain.Task.Service.{Service}
use open_mcp_chain.Task.Processor.{Processor, handle}

-- `clock n` is what the n-th reading of the clock gives; `context_error` what the context says when it
-- ends; `alerts` the events notified, latest last; `env` the state of the agent and the recovery handler.
pub record World (E : Type 0) : Type 0 where
  pub store : MemoryStore
  pub queue : MemoryQueue
  pub clock : ℕ → ℕ
  pub ticks : ℕ
  pub context_error : GoError
  pub alerts : List Event
  pub env : E

-- What the deployment does not implement itself: the agent, and the recovery handler if there is one.
-- Both may keep a state of their own, and touch neither the store nor the queue.
pub record Agent (E : Type 0) : Type 0 where
  pub execute : TaskRequest → E → (Option TaskResult × GoError) × E
  pub recover : Option (Task → GoError → E → (Option ExecutionResult × GoError) × E)

abbrev pub now : {E : Type 0} → World E → ℕ
now w = w.clock w.ticks

abbrev pub tick : {E : Type 0} → World E → World E
tick w = record w { ticks = w.ticks + 1 }

-- A send that waits for ever is ended by the context. The panic does not arise: Close sets the flag that
-- Publish reads together with the channel, and nothing runs between the two halves here.
abbrev sent : {E : Type 0} → Sent → World E → GoError × World E
sent (returned e q) w = (e, record w { queue = q })
sent waits w = (w.context_error, w)
sent panics w = (plain (txt "send on closed channel"), w)

-- The panic does not arise, since the options in effect cut within the listing.
abbrev listed : Option (List Task) → Result (List Task)
listed none = err (plain (txt "slice bounds out of range"))
listed (some tasks) = ok tasks

module _ {E : Type 0} where
  abbrev with_store : {A : Type 0} → (MemoryStore → A × MemoryStore) → Action (World E) A
  with_store f w = let (a, s) = f w.store in (a, record (tick w) { store = s })

  unfoldable pub create : Task → Action (World E) GoError
  create task w = with_store (store_create (some task) (now w)) w

  unfoldable pub get : Text → Action (World E) (Result Task)
  get id w = (from_pair (store_get id w.store), w)

  unfoldable pub claim : Text → Action (World E) (Result Task)
  claim id w = let (r, w') = with_store (store_claim id (now w)) w in (from_pair r, w')

  unfoldable pub mark_succeeded : Text → ExecutionResult → Action (World E) GoError
  mark_succeeded id result w = with_store (store_mark_succeeded id result (now w)) w

  unfoldable pub mark_failed : Text → Text → Text → Bool → Action (World E) GoError
  mark_failed id code text terminal w =
      with_store (store_mark_failed id code text terminal (now w)) w

  unfoldable pub publish : Text → Action (World E) GoError
  publish id w = sent (queue_publish sends id w.queue) w

  unfoldable pub close_queue : Action (World E) GoError
  close_queue w = (nil, record w { queue = queue_close w.queue })

  unfoldable pub read_clock : Action (World E) ℕ
  read_clock w = (now w, tick w)

  unfoldable pub notify : Event → Action (World E) GoError
  notify event w = (nil, record w { alerts = w.alerts ++ event ∷ [] })

  abbrev pub in_env : {A : Type 0} → (E → A × E) → Action (World E) A
  in_env f w = let (a, e) = f w.env in (a, record w { env = e })

  unfoldable pub list : ListOptions → Action (World E) (Result (List Task))
  list opts w = (listed (store_list opts w.store), w)

  unfoldable pub stats : ListOptions → Action (World E) (Result TaskStats)
  stats opts w = (ok (store_stats opts w.store), w)

  abbrev pub memory_store : Store (World E)
  memory_store = record {
    create = create;
    get = get;
    claim = claim;
    mark_succeeded = mark_succeeded;
    mark_failed = mark_failed;
    list = list;
    stats = stats;
    close = λ w. (nil, w);
  }

  abbrev pub memory_producer : Producer (World E)
  memory_producer = record { publish = publish; close = close_queue }

  abbrev pub memory_service : ℕ → Service (World E)
  memory_service max_retries = record {
    store = some memory_store;
    producer = some memory_producer;
    max_retries = max_retries;
  }

  abbrev pub executor_of : Agent E → Executor (World E)
  executor_of agent = record { execute = λ req. in_env (agent.execute req) }

  abbrev pub recovery_of :
      Option (Task → GoError → E → (Option ExecutionResult × GoError) × E)
      → Option (RecoveryHandler (World E))
  recovery_of none = none
  recovery_of (some r) = some (record { recover = λ task cause. in_env (r task cause) })

  -- Its Consume is `drain`, which calls the handler itself.
  abbrev pub memory_processor : Agent E → Processor (World E)
  memory_processor agent = record {
    executor = some (executor_of agent);
    store = some memory_store;
    consumer = none;
    producer = memory_producer;
    worker_count = pos 1;
    recovery = recovery_of agent.recover;
    alerter = some (record { notify = notify });
    clock = read_clock;
  }

  -- One worker of Consume, until the channel is empty: receive an id, handle it, drop the error. `none`:
  -- the fuel is used up.
  unfoldable pub drain : ℕ → Agent E → World E → Option (World E)
  drain zero agent w = elim (receive w.queue) [ none ↦ some w | some _ ↦ none ]
  drain (suc fuel) agent w = elim (receive w.queue) [
    | none ↦ some w
    | some (id, q) ↦
        drain fuel agent (handle (memory_processor agent) id (record w { queue = q })).1
  ]
