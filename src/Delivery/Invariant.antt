-- ===== src/Delivery/Invariant.antt =====
-- Pending documents and generations of a device between calls
-- (internal/database/device_change_sets.go and device_operations.go).
use openwrt_controller.Base.{
  ℕ, ◌≤◌, ◌≡◌, true, false, ◌||◌, Option, none, some, List, Text, All, arith,
}
use openwrt_controller.Schema.{
  Platform, ChangeSetEnvelope, OperationEnvelope, value_or_zero, Device, is_null, RolloutRun,
  Tables,
}
use openwrt_controller.ChangeSet.{identity_of}
use openwrt_controller.DeviceChangeSet.Queue
use openwrt_controller.DeviceChangeSet.Status
use openwrt_controller.DeviceOperation.Laws
use openwrt_controller.DeviceOperation.Queue as OperationQueue
use openwrt_controller.DeviceOperation.Status as OperationStatus
use openwrt_controller.Delivery.Induction.{RowKeeps, run-AllKept}
use openwrt_controller.Delivery.{run, Event}

abbrev pub change_set_generation : Option ChangeSetEnvelope → ℕ
change_set_generation none = 0
change_set_generation (some e) = value_or_zero e.generation

abbrev pub operation_generation : Option OperationEnvelope → ℕ
operation_generation none = 0
operation_generation (some e) = value_or_zero e.generation

pub record IsConsistent (d : Device) : Type 0 where
  pub one_pending : (is_null d.pending_operation || is_null d.pending_change_set) ≡ true
  pub pending_operation_bound : operation_generation d.pending_operation ≤ d.desired_generation
  pub last_operation_bound : operation_generation d.last_operation ≤ d.desired_generation
  pub pending_change_set_bound : change_set_generation d.pending_change_set ≤ d.desired_generation
  pub last_change_set_bound : change_set_generation d.last_change_set ≤ d.desired_generation
  pub observed_bound : d.observed_generation ≤ d.desired_generation
  pub successful_bound : d.last_successful_generation ≤ d.observed_generation

queue_row-IsConsistent :
    (pf : Platform) (now : ℕ) (o : Queue.Owner) (device_id : Text) (e : ChangeSetEnvelope)
    (runs : List RolloutRun) (d : Device)
    → Queue.accepts pf now o device_id (identity_of e) runs d ≡ true
    → IsConsistent d
    → IsConsistent (Queue.queue_row now e (identity_of e) d)
unfolding Queue.accepts Queue.queue_row
queue_row-IsConsistent pf now o device_id e runs d a c = ground arith

status_row-IsConsistent :
    (now : ℕ) (device_id : Text) (e : ChangeSetEnvelope) (d : Device)
    → Status.matches (identity_of e) device_id e.state d ≡ true
    → IsConsistent d
    → IsConsistent (Status.status_row now e (identity_of e) device_id d)
unfolding Status.pending_match Status.last_match Status.status_row
status_row-IsConsistent now device_id e d m c = ground arith

queue_operation_row-IsConsistent :
    (now : ℕ) (device_id : Text) (e : OperationEnvelope) (runs : List RolloutRun) (d : Device)
    → OperationQueue.accepts now device_id e (Laws.identity_of e false) runs d ≡ true
    → IsConsistent d
    → IsConsistent (OperationQueue.queue_row now e (Laws.identity_of e false) d)
unfolding OperationQueue.accepts OperationQueue.queue_row
queue_operation_row-IsConsistent now device_id e runs d a c = ground arith

operation_status_row-IsConsistent :
    (now : ℕ) (device_id : Text) (e : OperationEnvelope) (d : Device)
    → OperationStatus.matches (Laws.identity_of e true) device_id e.state d ≡ true
    → IsConsistent d
    → IsConsistent (OperationStatus.status_row now e (Laws.identity_of e true) d)
unfolding OperationStatus.pending_match OperationStatus.last_match OperationStatus.status_row
operation_status_row-IsConsistent now device_id e d m c = ground arith

rows-IsConsistent : (pf : Platform) → RowKeeps pf IsConsistent
rows-IsConsistent pf = record {
  queued = queue_row-IsConsistent pf;
  reported = status_row-IsConsistent;
  operation_queued = queue_operation_row-IsConsistent;
  operation_reported = operation_status_row-IsConsistent;
}

-- From consistent devices, any calls at any times leave every device with at most one pending
-- document, with the generations of its documents at most its desired generation, with an observed
-- generation at most the desired one, and a last successful generation at most the observed one.
pub run-IsConsistent :
    (pf : Platform) (schema : Text) (es : List (ℕ × Event)) (t : Tables)
    → All IsConsistent t.devices
    → All IsConsistent (run pf schema es t).devices
run-IsConsistent pf schema es t c = run-AllKept pf (rows-IsConsistent pf) schema es t c
