-- ===== src/Tests.antt =====
-- The theorems at concrete inputs.
mod Samples
mod StoreRuns
mod Worlds
mod Submissions
mod Lists
mod Small
mod Accounts
mod Executions
mod Plugins
mod Pages
mod Tokens
mod Reasoning
mod Settings
