-- ===== src/Lib.antt =====
-- The task service of OpenMCP-Chain. A client submits a task with a goal; the service stores it and
-- queues its id; a worker of the processor takes ids from the queue, claims the task in the store, has
-- the agent execute it, and records the result or the failure, with a retry where the error allows it.
--
-- The files and the code they model:
--   Prelude, Prelude/*   Go's strings, integers, maps, slices and sort.Slice, as far as the code uses
--                        them. A map is an association list; the order of the list stands for one order
--                        in which `range` may visit it.
--   Errors, Errors/*     internal/errors/errors.go: the registry of codes, error values with options
--                        (New, Wrap), what errors.Is and errors.As find in a chain, and the attributes.
--   Task/Types           internal/task/task.go and stats.go.
--   Task/Options         internal/task/list_options.go: list options, their defaults and clamps.
--   Task/Store, Store/*  internal/task/memory_store.go: Create, Get, Claim, MarkSucceeded, MarkFailed.
--                        History has the runs of these operations, by any number of callers.
--   Task/Listing, Stats  internal/task/memory_store.go: List and Stats, and the filters they share.
--   Task/Queue           internal/task/memory_queue.go. Publish is in two halves, as its mutex covers
--                        the first only.
--   Task/Interfaces      the interfaces Store, Producer, Executor, RecoveryHandler and Dispatcher, as
--                        records of methods that read and change a world W.
--   Task/Service         internal/task/service.go over any store and producer.
--   Task/Processor       internal/task/processor.go: handle, handleExecutionFailure and emitAlert over
--                        any implementations of the interfaces.
--   Task/World           MemoryStore and MemoryQueue behind the interfaces, as cmd/openmcpd builds them
--                        without MySQL and Redis, with a clock, and one worker of Consume (drain).
--                        Waiting has a client that waits while a worker takes the messages.
--   Knowledge            internal/knowledge/static.go: the provider and its Query, without the file.
--   Auth/Subject         internal/auth/types.go: subjects, HasPermission, Authorize, Clone.
--   Auth/MemoryStore     internal/auth/memory_store.go: the seeds, lookups, and dedupeStrings. A call of
--                        HashPassword gets what the random salt and the digest come to as an argument.
--   Auth/Tokens          internal/auth/service.go: jwtManager, its claims and checks, and passwords. Base64,
--                        JSON, HMAC and SHA-256 are the fields of a record, with what they do as hypotheses.
--   Auth/Service, Service/*  internal/auth/service.go: NewService, Authenticate and AuthenticateRequest, over
--                        any store; Requests has them, and the in-memory store behind the interface.
--   Auth/Middleware      internal/auth/middleware.go: the requests that reach the handler.
--   Agent, Agent/*       internal/agent/agent.go: Execute and ListHistory, over any LLM client, chain client,
--                        repository and knowledge base (the interfaces of internal/llm and internal/web3).
--   Config, Config/*     internal/config/config.go: the configuration and its defaults.
--   Storage, Storage/*   internal/storage/mysql/task_repository.go: the repository in memory, its log file, and
--                        transactions. The file and the JSON of its lines are parameters; Loading has the
--                        scanner with its limit of 64 KB for a line.
--   Plugin, Plugin/*     pkg/plugin: the manager of plugins and the isolation policies. Monitor is the life
--                        cycle as an automaton, Traced records the calls of hooks.
--   Api, Api/*           internal/api/server.go: the handlers of tasks and of tokens, and the parsing
--                        of queries.
--   Tests/*              each result at a concrete input.
--
-- Stateful code takes the state and returns it with the result. Each store operation stands for one
-- critical section of the mutex, so a sequence of operations stands for the calls of any number of
-- goroutines, in the order in which they take the mutex. Times are Unix seconds. The agent, the recovery
-- handler, the clock, uuid.NewString and the context are parameters of the deployment; Agent models the agent's
-- own work.
--
-- Bounds and fuel: `drain` has fuel, one unit for each message; the messages in the queue and the attempts
-- that the stored tasks have left are enough. `wait_until_completed` has a number of polls; `none` means
-- that it still waits. `read_on` has a number of pages; those that cover the listing are enough. `decimal` has
-- the number itself as fuel, which is more than its digits. Attempts and retries are natural numbers, without the bounds of int.
--
-- Not modelled: logging; the MySQL stores and the Redis and RabbitMQ queues, which call servers; the requests of
-- the OAuth client; the HTTP server around the handlers; reading the configuration file; the LLM and chain
-- clients, metrics, the delivery of alerts, the loading of shared objects and the SDK. ASCII letters only are put
-- in lower case by `to_lower`, and EqualFold compares by it; the others are left as they are. Also outside the
-- model: an LLM client that returns neither a response nor an error, on which Execute panics; ids of executions
-- beyond int64; and times of tokens before 1970.
pub mod Prelude
pub mod Errors
pub mod Task
pub mod Knowledge
pub mod Auth
pub mod Storage
pub mod Plugin
pub mod Api
pub mod Agent
pub mod Config
mod Tests
