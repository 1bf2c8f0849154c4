-- ===== src/Delivery.antt =====
-- The four operations that change a device's queues, as one state machine: internal/database/
-- device_change_sets.go and device_operations.go over the same rows.
pub mod Induction
pub mod Invariant
pub mod Quarantine
pub mod Monotone
use openwrt_controller.Base.{ℕ, Option, List, [], ◌∷◌, Text}
use openwrt_controller.Schema.{Platform, ChangeSetEnvelope, OperationEnvelope, Tables}
use openwrt_controller.DeviceChangeSet.Queue.{
  Owner, queue_device_change_set, queue_device_change_set_for_rollout,
}
use openwrt_controller.DeviceChangeSet.Status.{record_device_change_set_status}
use openwrt_controller.DeviceOperation.Queue.{queue_device_operation}
use openwrt_controller.DeviceOperation.Status.{record_device_operation_status}

-- One call, with its device and its decoded document.
pub data Event : Type 0 where
  queue_change_set : Text → Option ChangeSetEnvelope → Event
  queue_rollout_change_set : Owner → Text → Option ChangeSetEnvelope → Event
  report_change_set : Text → Option ChangeSetEnvelope → Event
  queue_operation : Text → Option OperationEnvelope → Event
  report_operation : Text → Option OperationEnvelope → Event

-- The tables after a call at a time.
unfoldable pub step : Platform → Text → ℕ → Event → Tables → Tables
step pf schema now (queue_change_set d e) t = (queue_device_change_set pf now schema d e t).1
step pf schema now (queue_rollout_change_set o d e) t =
    (queue_device_change_set_for_rollout pf now schema o d e t).1
step pf schema now (report_change_set d e) t =
    (record_device_change_set_status pf now schema d e t).1
step pf schema now (queue_operation d e) t = (queue_device_operation now schema d e t).1
step pf schema now (report_operation d e) t = (record_device_operation_status now schema d e t).1

-- The tables after calls, in order.
unfoldable pub run : Platform → Text → List (ℕ × Event) → Tables → Tables
run pf schema [] t = t
run pf schema ((now, e) ∷ es) t = run pf schema es (step pf schema now e t)
