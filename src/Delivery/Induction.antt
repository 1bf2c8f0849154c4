-- ===== src/Delivery/Induction.antt =====
-- Induction over the calls of Delivery, from the changes of one row
-- (internal/database/device_change_sets.go and device_operations.go).
use openwrt_controller.Base.{
  ℕ, ◌≡◌, refl, true, false, Option, none, some, List, [], ◌∷◌, Text, All, All-update_rows, Result,
  ok, err, arith,
}
use openwrt_controller.Schema.{
  Error, Platform, ChangeSetEnvelope, OperationEnvelope, Device, RolloutRun, Tables,
}
use openwrt_controller.ChangeSet.{ChangeSetIdentity, parse_device_change_set, identity_of}
use openwrt_controller.ChangeSet.Laws.{parse-identity}
use openwrt_controller.DeviceChangeSet.Queue
use openwrt_controller.DeviceChangeSet.Status
use openwrt_controller.DeviceOperation.{OperationIdentity, parse_operation_identity}
use openwrt_controller.DeviceOperation.Laws
use openwrt_controller.DeviceOperation.Queue as OperationQueue
use openwrt_controller.DeviceOperation.Status as OperationStatus
use openwrt_controller.Delivery.{
  step, run, Event, queue_change_set, queue_rollout_change_set, report_change_set, queue_operation,
  report_operation,
}

-- `P` is kept by the four changes of a row, each under the condition of its UPDATE.
pub record RowKeeps (pf : Platform) (P : Device → Type 0) : Type 0 where
  pub queued :
      (now : ℕ) (o : Queue.Owner) (device_id : Text) (e : ChangeSetEnvelope)
      (runs : List RolloutRun) (d : Device)
      → Queue.accepts pf now o device_id (identity_of e) runs d ≡ true
      → P d
      → P (Queue.queue_row now e (identity_of e) d)
  pub reported :
      (now : ℕ) (device_id : Text) (e : ChangeSetEnvelope) (d : Device)
      → Status.matches (identity_of e) device_id e.state d ≡ true
      → P d
      → P (Status.status_row now e (identity_of e) device_id d)
  pub operation_queued :
      (now : ℕ) (device_id : Text) (e : OperationEnvelope) (runs : List RolloutRun) (d : Device)
      → OperationQueue.accepts now device_id e (Laws.identity_of e false) runs d ≡ true
      → P d
      → P (OperationQueue.queue_row now e (Laws.identity_of e false) d)
  pub operation_reported :
      (now : ℕ) (device_id : Text) (e : OperationEnvelope) (d : Device)
      → OperationStatus.matches (Laws.identity_of e true) device_id e.state d ≡ true
      → P d
      → P (OperationStatus.status_row now e (Laws.identity_of e true) d)

module _ (pf : Platform) {P : Device → Type 0} (keeps : RowKeeps pf P) where
  abbrev AllKept : Tables → Type 0
  AllKept t = All P t.devices

  queue-AllKept :
      (now : ℕ) (o : Queue.Owner) (device_id : Text) (e : ChangeSetEnvelope) (t : Tables)
      → AllKept t
      → AllKept (Queue.queue pf now o device_id e (identity_of e) t).1
  unfolding Queue.queue
  queue-AllKept now o device_id e t c = ground (
    arith,
    All-update_rows P (Queue.accepts pf now o device_id (identity_of e) t.rollout_runs)
        (Queue.queue_row now e (identity_of e)) t.devices
        (keeps.queued now o device_id e t.rollout_runs) c,
  )

  queue_parsed-AllKept :
      (now : ℕ) (o : Queue.Owner) (device_id : Text) (raw : Option ChangeSetEnvelope) (t : Tables)
      (r : Result Error ChangeSetIdentity)
      → parse_device_change_set pf raw false ≡ r
      → AllKept t
      → AllKept (Queue.queue_parsed pf now o device_id raw r t).1
  unfolding Queue.queue_parsed
  queue_parsed-AllKept now o device_id raw t (err x) h c = c
  queue_parsed-AllKept now o device_id none t (ok i) h c = c
  queue_parsed-AllKept now o device_id (some e) t (ok i) h c =
      ground (arith, parse-identity pf e i false h, queue-AllKept now o device_id e t c)

  queue_owned-AllKept :
      (now : ℕ) (schema : Text) (o : Queue.Owner) (device_id : Text)
      (raw : Option ChangeSetEnvelope) (t : Tables)
      → AllKept t
      → AllKept (Queue.queue_owned pf now schema o device_id raw t).1
  unfolding Queue.queue_owned
  queue_owned-AllKept now schema o device_id raw t c = ground (
    arith,
    queue_parsed-AllKept now o device_id raw t (parse_device_change_set pf raw false) refl c,
  )

  apply_status-AllKept :
      (now : ℕ) (device_id : Text) (e : ChangeSetEnvelope) (t : Tables)
      → AllKept t
      → AllKept (Status.apply_status now e (identity_of e) device_id t).1
  unfolding Status.apply_status
  apply_status-AllKept now device_id e t c = ground (
    arith,
    All-update_rows P (Status.matches (identity_of e) device_id e.state)
        (Status.status_row now e (identity_of e) device_id) t.devices
        (keeps.reported now device_id e) c,
  )

  record_parsed-AllKept :
      (now : ℕ) (device_id : Text) (raw : Option ChangeSetEnvelope) (t : Tables)
      (r : Result Error ChangeSetIdentity)
      → parse_device_change_set pf raw true ≡ r
      → AllKept t
      → AllKept (Status.record_parsed pf now device_id raw r t).1
  unfolding Status.record_parsed
  record_parsed-AllKept now device_id raw t (err x) h c = c
  record_parsed-AllKept now device_id none t (ok i) h c = c
  record_parsed-AllKept now device_id (some e) t (ok i) h c =
      ground (arith, parse-identity pf e i true h, apply_status-AllKept now device_id e t c)

  queue_operation-AllKept :
      (now : ℕ) (device_id : Text) (raw : Option OperationEnvelope) (t : Tables)
      (r : Result Error OperationIdentity)
      → parse_operation_identity raw false ≡ r
      → AllKept t
      → AllKept (OperationQueue.queue_parsed now device_id raw r t).1
  unfolding OperationQueue.queue_parsed OperationQueue.queue
  queue_operation-AllKept now device_id raw t (err x) h c = c
  queue_operation-AllKept now device_id none t (ok i) h c = c
  queue_operation-AllKept now device_id (some e) t (ok i) h c = ground (
    arith,
    Laws.parse-identity e i false h,
    All-update_rows P
        (OperationQueue.accepts now device_id e (Laws.identity_of e false) t.rollout_runs)
        (OperationQueue.queue_row now e (Laws.identity_of e false)) t.devices
        (keeps.operation_queued now device_id e t.rollout_runs) c,
  )

  operation_status-AllKept :
      (now : ℕ) (device_id : Text) (raw : Option OperationEnvelope) (t : Tables)
      (r : Result Error OperationIdentity)
      → parse_operation_identity raw true ≡ r
      → AllKept t
      → AllKept (OperationStatus.record_parsed now device_id raw r t).1
  unfolding OperationStatus.record_parsed
  operation_status-AllKept now device_id raw t (err x) h c = c
  operation_status-AllKept now device_id none t (ok i) h c = c
  operation_status-AllKept now device_id (some e) t (ok i) h c = ground (
    arith,
    Laws.parse-identity e i true h,
    All-update_rows P (OperationStatus.matches (Laws.identity_of e true) device_id e.state)
        (OperationStatus.status_row now e (Laws.identity_of e true)) t.devices
        (keeps.operation_reported now device_id e) c,
  )

  step-AllKept :
      (schema : Text) (now : ℕ) (e : Event) (t : Tables)
      → AllKept t
      → AllKept (step pf schema now e t)
  unfolding step
  step-AllKept schema now (queue_change_set d e) t c =
      unfold Queue.queue_device_change_set in queue_owned-AllKept now schema Queue.no_owner d e t c
  step-AllKept schema now (queue_rollout_change_set o d e) t c =
      unfold Queue.queue_device_change_set_for_rollout in queue_owned-AllKept now schema o d e t c
  step-AllKept schema now (report_change_set d e) t c =
      unfold Status.record_device_change_set_status in
      ground (arith, record_parsed-AllKept now d e t (parse_device_change_set pf e true) refl c)
  step-AllKept schema now (queue_operation d e) t c =
      unfold OperationQueue.queue_device_operation in
      ground (arith, queue_operation-AllKept now d e t (parse_operation_identity e false) refl c)
  step-AllKept schema now (report_operation d e) t c =
      unfold OperationStatus.record_device_operation_status in
      ground (arith, operation_status-AllKept now d e t (parse_operation_identity e true) refl c)

  pub run-AllKept :
      (schema : Text) (es : List (ℕ × Event)) (t : Tables)
      → AllKept t
      → AllKept (run pf schema es t)
  unfolding run
  run-AllKept schema [] t c = c
  run-AllKept schema ((now, e) ∷ es) t c =
      run-AllKept schema es (step pf schema now e t) (step-AllKept schema now e t c)
