-- ===== src/Tests.antt =====
-- Runs of the modelled code at concrete inputs.
mod Limits
mod Caches
mod Vectors
mod Backends
mod Chunks
mod Members
mod Signing
mod Sessions
mod Entry
mod Passages
mod Pages
mod Lifecycle
mod Counters
mod Answers
mod Served
mod Offline
mod Strangers
mod Golden
