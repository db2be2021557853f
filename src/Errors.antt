-- ===== src/Errors.antt =====
-- internal/errors/errors.go: the registry of error codes, the unified error with its methods, and
-- the functions that read any Go error.
pub mod Registry
pub mod Value
pub mod Reading
pub mod Chain
pub mod Overrides
