-- ===== src/DeviceChangeSet.antt =====
-- The change-set queue of a device (internal/database/device_change_sets.go): delivery in Queue,
-- status reports in Status, and the proofs in the other children.
pub mod Queue
pub mod Status
pub mod Requeue
pub mod Lifecycle
pub mod Settlement
pub mod KeyedRow
pub mod Delivered
