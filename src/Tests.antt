-- ===== src/Tests.antt =====
-- The theorems at concrete inputs, and runs of the definitions on small data.
mod Lifecycle
mod Sessions
mod Closing
mod Operator
mod Depth
mod Triage
mod Engine
mod Rescan
mod Follow
mod Persist
