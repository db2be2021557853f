-- ===== src/Auth.antt =====
-- internal/auth: subjects and their permissions, and the in-memory store of users.
pub mod Subject
pub mod MemoryStore
pub mod Tokens
pub mod Service
pub mod Middleware
