-- ===== src/Delivery/Quarantine.antt =====
-- Devices in RECOVERY_REQUIRED (internal/database/device_change_sets.go and device_operations.go).
use openwrt_controller.Base.{ℕ, ◌≡◌, true, false, none, List, Text, All, arith}
use openwrt_controller.Schema.{
  Platform, recovery_required, state_eq_iff, ChangeSetEnvelope, OperationEnvelope, Device,
  change_set_state, RolloutRun, Tables,
}
use openwrt_controller.ChangeSet.{identity_of}
use openwrt_controller.DeviceChangeSet.Queue
use openwrt_controller.DeviceChangeSet.Status
use openwrt_controller.DeviceOperation.Laws
use openwrt_controller.DeviceOperation.Queue as OperationQueue
use openwrt_controller.DeviceOperation.Status as OperationStatus
use openwrt_controller.Delivery.{run, Event}
use openwrt_controller.Delivery.Induction.{RowKeeps, run-AllKept}

-- The row has nothing pending, its last change set needs recovery, and it is at generation g.
pub record IsQuarantined (g : ℕ) (d : Device) : Type 0 where
  pub no_operation : d.pending_operation ≡ none
  pub no_change_set : d.pending_change_set ≡ none
  pub needs_recovery : change_set_state d.last_change_set ≡ recovery_required
  pub at_generation : d.desired_generation ≡ g

-- The device with this id, if the table has it, is quarantined.
abbrev pub Quarantines : Text → ℕ → Device → Type 0
Quarantines id g d = d.id ≡ id → IsQuarantined g d

module _ (id : Text) (g : ℕ) where
  queue_row-Quarantines :
      (pf : Platform) (now : ℕ) (o : Queue.Owner) (device_id : Text) (e : ChangeSetEnvelope)
      (runs : List RolloutRun) (d : Device)
      → Queue.accepts pf now o device_id (identity_of e) runs d ≡ true
      → Quarantines id g d
      → Quarantines id g (Queue.queue_row now e (identity_of e) d)
  unfolding Queue.accepts Queue.queue_row
  queue_row-Quarantines pf now o device_id e runs d a q h =
      ground (arith, q h, state_eq_iff (change_set_state d.last_change_set) recovery_required)

  status_row-Quarantines :
      (now : ℕ) (device_id : Text) (e : ChangeSetEnvelope) (d : Device)
      → Status.matches (identity_of e) device_id e.state d ≡ true
      → Quarantines id g d
      → Quarantines id g (Status.status_row now e (identity_of e) device_id d)
  unfolding Status.pending_match Status.last_match Status.status_row Status.is_terminal
  status_row-Quarantines now device_id e d m q h =
      ground (arith, q h, state_eq_iff (change_set_state d.last_change_set) e.state)

  queue_operation_row-Quarantines :
      (now : ℕ) (device_id : Text) (e : OperationEnvelope) (runs : List RolloutRun) (d : Device)
      → OperationQueue.accepts now device_id e (Laws.identity_of e false) runs d ≡ true
      → Quarantines id g d
      → Quarantines id g (OperationQueue.queue_row now e (Laws.identity_of e false) d)
  unfolding OperationQueue.accepts OperationQueue.queue_row
  queue_operation_row-Quarantines now device_id e runs d a q h =
      ground (arith, q h, state_eq_iff (change_set_state d.last_change_set) recovery_required)

  operation_status_row-Quarantines :
      (now : ℕ) (device_id : Text) (e : OperationEnvelope) (d : Device)
      → OperationStatus.matches (Laws.identity_of e true) device_id e.state d ≡ true
      → Quarantines id g d
      → Quarantines id g (OperationStatus.status_row now e (Laws.identity_of e true) d)
  unfolding OperationStatus.status_row
  operation_status_row-Quarantines now device_id e d m q h = ground (arith, q h)

  rows-Quarantines : (pf : Platform) → RowKeeps pf (Quarantines id g)
  rows-Quarantines pf = record {
    queued = queue_row-Quarantines pf;
    reported = status_row-Quarantines;
    operation_queued = queue_operation_row-Quarantines;
    operation_reported = operation_status_row-Quarantines;
  }

-- A device with nothing pending, whose last change set is in RECOVERY_REQUIRED, stays so whatever is
-- called: nothing is queued to it, and its desired generation does not move.
pub recovery_required_blocks :
    (pf : Platform) (schema id : Text) (g : ℕ) (es : List (ℕ × Event)) (t : Tables)
    → All (Quarantines id g) t.devices
    → All (Quarantines id g) (run pf schema es t).devices
recovery_required_blocks pf schema id g es t q =
    run-AllKept pf (rows-Quarantines id g pf) schema es t q
