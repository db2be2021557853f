-- ===== src/Task.antt =====
-- internal/task: the data of a task, list queries, the in-memory store and queue, the service that submits
-- tasks, the processor that runs them, and the three put together in one world.
pub mod Types
pub mod Options
pub mod Store
pub mod Listing
pub mod Stats
pub mod Queue
pub mod Interfaces
pub mod Service
pub mod Processor
pub mod World
