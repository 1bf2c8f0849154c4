-- ===== src/Schema.antt =====
-- The tables and JSON documents that internal/database/device_change_sets.go,
-- device_operations.go, rollout_drafts.go and rollout_worker.go read and write. A JSONB column holds
-- the decoded document; NULL is `none`, and a text field that the document lacks is empty.
mod Documents
mod Errors
mod External
mod Devices
mod Rollouts
pub use Errors.*
pub use External.*
unfoldable pub use Documents.*
pub use Devices.*
unfoldable pub use Rollouts.*
