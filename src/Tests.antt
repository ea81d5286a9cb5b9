-- ===== src/Tests.antt =====
-- The theorems at concrete inputs.
mod Samples
mod Queues
mod Races
mod Commands
mod Lifecycle
mod Tooling
mod Loading
