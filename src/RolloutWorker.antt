-- ===== src/RolloutWorker.antt =====
-- The rollout worker: the fenced lease on a run (internal/database/rollout_worker.go) in Lease and
-- Progress, with what the worker (internal/rolloutworker/worker.go) decides from it, and Phase.
pub mod Lease
pub mod Progress
pub mod Fencing
mod First
pub mod Exclusion
pub mod Phase
pub mod Order
pub mod Grouping
