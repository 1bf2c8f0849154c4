-- ===== src/Delivery/Monotone.antt =====
-- The generations of a device before and after calls
-- (internal/database/device_change_sets.go and device_operations.go).
use openwrt_controller.Base.{
  ℕ, ◌≤◌, ◌≡◌, true, false, Option, none, some, List, [], ◌∷◌, Text, Pointwise, Pointwise-refl,
  Pointwise-trans, Pointwise-update_rows, Result, ok, err, arith,
}
use openwrt_controller.Schema.{
  Error, Platform, ChangeSetEnvelope, OperationEnvelope, Device, Tables,
}
use openwrt_controller.ChangeSet.{ChangeSetIdentity, parse_device_change_set}
use openwrt_controller.DeviceChangeSet.Queue
use openwrt_controller.DeviceChangeSet.Status
use openwrt_controller.DeviceOperation.{OperationIdentity, parse_operation_identity}
use openwrt_controller.DeviceOperation.Queue as OperationQueue
use openwrt_controller.DeviceOperation.Status as OperationStatus
use openwrt_controller.Delivery.{
  step, run, Event, queue_change_set, queue_rollout_change_set, report_change_set, queue_operation,
  report_operation,
}

-- A row before and after.
pub record Advances (d d' : Device) : Type 0 where
  pub same_id : d.id ≡ d'.id
  pub same_site : d.site_id ≡ d'.site_id
  pub same_role : d.device_role ≡ d'.device_role
  pub desired : d.desired_generation ≤ d'.desired_generation
  pub observed : d.observed_generation ≤ d'.observed_generation
  pub successful : d.last_successful_generation ≤ d'.last_successful_generation

Advances-refl : (d : Device) → Advances d d
Advances-refl d = ground arith

Advances-trans : (a b c : Device) → Advances a b → Advances b c → Advances a c
Advances-trans a b c p q = ground arith

queue_row-Advances :
    (now : ℕ) (e : ChangeSetEnvelope) (i : ChangeSetIdentity) (d : Device)
    → Advances d (Queue.queue_row now e i d)
unfolding Queue.queue_row
queue_row-Advances now e i d = ground arith

status_row-Advances :
    (now : ℕ) (e : ChangeSetEnvelope) (i : ChangeSetIdentity) (device_id : Text) (d : Device)
    → Advances d (Status.status_row now e i device_id d)
unfolding Status.status_row
status_row-Advances now e i device_id d = ground arith

queue_operation_row-Advances :
    (now : ℕ) (e : OperationEnvelope) (i : OperationIdentity) (d : Device)
    → Advances d (OperationQueue.queue_row now e i d)
unfolding OperationQueue.queue_row
queue_operation_row-Advances now e i d = ground arith

operation_status_row-Advances :
    (now : ℕ) (e : OperationEnvelope) (i : OperationIdentity) (d : Device)
    → Advances d (OperationStatus.status_row now e i d)
unfolding OperationStatus.status_row
operation_status_row-Advances now e i d = ground arith

abbrev pub AllAdvance : Tables → Tables → Type 0
AllAdvance t t' = Pointwise Advances t.devices t'.devices

AllAdvance-refl : (t : Tables) → AllAdvance t t
AllAdvance-refl t = Pointwise-refl Advances Advances-refl t.devices

queue-AllAdvance :
    (pf : Platform) (now : ℕ) (o : Queue.Owner) (device_id : Text) (e : ChangeSetEnvelope)
    (i : ChangeSetIdentity) (t : Tables)
    → AllAdvance t (Queue.queue pf now o device_id e i t).1
unfolding Queue.queue
queue-AllAdvance pf now o device_id e i t = ground (
  arith,
  AllAdvance-refl t,
  Pointwise-update_rows Advances (Queue.accepts pf now o device_id i t.rollout_runs)
      (Queue.queue_row now e i) Advances-refl (λ d a. queue_row-Advances now e i d) t.devices,
)

queue_parsed-AllAdvance :
    (pf : Platform) (now : ℕ) (o : Queue.Owner) (device_id : Text) (raw : Option ChangeSetEnvelope)
    (r : Result Error ChangeSetIdentity) (t : Tables)
    → AllAdvance t (Queue.queue_parsed pf now o device_id raw r t).1
unfolding Queue.queue_parsed
queue_parsed-AllAdvance pf now o device_id raw (err x) t = AllAdvance-refl t
queue_parsed-AllAdvance pf now o device_id none (ok i) t = AllAdvance-refl t
queue_parsed-AllAdvance pf now o device_id (some e) (ok i) t =
    ground (arith, AllAdvance-refl t, queue-AllAdvance pf now o device_id e i t)

queue_owned-AllAdvance :
    (pf : Platform) (now : ℕ) (schema : Text) (o : Queue.Owner) (device_id : Text)
    (raw : Option ChangeSetEnvelope) (t : Tables)
    → AllAdvance t (Queue.queue_owned pf now schema o device_id raw t).1
unfolding Queue.queue_owned
queue_owned-AllAdvance pf now schema o device_id raw t = ground (
  arith,
  AllAdvance-refl t,
  queue_parsed-AllAdvance pf now o device_id raw (parse_device_change_set pf raw false) t,
)

apply_status-AllAdvance :
    (now : ℕ) (device_id : Text) (e : ChangeSetEnvelope) (i : ChangeSetIdentity) (t : Tables)
    → AllAdvance t (Status.apply_status now e i device_id t).1
unfolding Status.apply_status
apply_status-AllAdvance now device_id e i t = ground (
  arith,
  Pointwise-update_rows Advances (Status.matches i device_id e.state)
      (Status.status_row now e i device_id) Advances-refl
      (λ d m. status_row-Advances now e i device_id d) t.devices,
)

record_parsed-AllAdvance :
    (pf : Platform) (now : ℕ) (device_id : Text) (raw : Option ChangeSetEnvelope)
    (r : Result Error ChangeSetIdentity) (t : Tables)
    → AllAdvance t (Status.record_parsed pf now device_id raw r t).1
unfolding Status.record_parsed
record_parsed-AllAdvance pf now device_id raw (err x) t = AllAdvance-refl t
record_parsed-AllAdvance pf now device_id none (ok i) t = AllAdvance-refl t
record_parsed-AllAdvance pf now device_id (some e) (ok i) t =
    ground (arith, AllAdvance-refl t, apply_status-AllAdvance now device_id e i t)

queue_operation-AllAdvance :
    (now : ℕ) (device_id : Text) (raw : Option OperationEnvelope)
    (r : Result Error OperationIdentity) (t : Tables)
    → AllAdvance t (OperationQueue.queue_parsed now device_id raw r t).1
unfolding OperationQueue.queue_parsed OperationQueue.queue
queue_operation-AllAdvance now device_id raw (err x) t = AllAdvance-refl t
queue_operation-AllAdvance now device_id none (ok i) t = AllAdvance-refl t
queue_operation-AllAdvance now device_id (some e) (ok i) t = ground (
  arith,
  AllAdvance-refl t,
  Pointwise-update_rows Advances (OperationQueue.accepts now device_id e i t.rollout_runs)
      (OperationQueue.queue_row now e i) Advances-refl
      (λ d a. queue_operation_row-Advances now e i d) t.devices,
)

operation_status-AllAdvance :
    (now : ℕ) (device_id : Text) (raw : Option OperationEnvelope)
    (r : Result Error OperationIdentity) (t : Tables)
    → AllAdvance t (OperationStatus.record_parsed now device_id raw r t).1
unfolding OperationStatus.record_parsed
operation_status-AllAdvance now device_id raw (err x) t = AllAdvance-refl t
operation_status-AllAdvance now device_id none (ok i) t = AllAdvance-refl t
operation_status-AllAdvance now device_id (some e) (ok i) t = ground (
  arith,
  AllAdvance-refl t,
  Pointwise-update_rows Advances (OperationStatus.matches i device_id e.state)
      (OperationStatus.status_row now e i) Advances-refl
      (λ d m. operation_status_row-Advances now e i d) t.devices,
)

step-AllAdvance :
    (pf : Platform) (schema : Text) (now : ℕ) (e : Event) (t : Tables)
    → AllAdvance t (step pf schema now e t)
unfolding step
step-AllAdvance pf schema now (queue_change_set d e) t =
    unfold Queue.queue_device_change_set in
    queue_owned-AllAdvance pf now schema Queue.no_owner d e t
step-AllAdvance pf schema now (queue_rollout_change_set o d e) t =
    unfold Queue.queue_device_change_set_for_rollout in queue_owned-AllAdvance pf now schema o d e t
step-AllAdvance pf schema now (report_change_set d e) t =
    unfold Status.record_device_change_set_status in
    ground (
      arith,
      AllAdvance-refl t,
      record_parsed-AllAdvance pf now d e (parse_device_change_set pf e true) t,
    )
step-AllAdvance pf schema now (queue_operation d e) t =
    unfold OperationQueue.queue_device_operation in
    ground (
      arith,
      AllAdvance-refl t,
      queue_operation-AllAdvance now d e (parse_operation_identity e false) t,
    )
step-AllAdvance pf schema now (report_operation d e) t =
    unfold OperationStatus.record_device_operation_status in
    ground (
      arith,
      AllAdvance-refl t,
      operation_status-AllAdvance now d e (parse_operation_identity e true) t,
    )

-- After any calls at any times the table has the same devices, in the same sites and roles, and no
-- desired, observed or last successful generation of one has fallen.
pub run-AllAdvance :
    (pf : Platform) (schema : Text) (es : List (ℕ × Event)) (t : Tables)
    → AllAdvance t (run pf schema es t)
unfolding run
run-AllAdvance pf schema [] t = AllAdvance-refl t
run-AllAdvance pf schema ((now, e) ∷ es) t =
    Pointwise-trans Advances Advances-trans (step-AllAdvance pf schema now e t)
      (run-AllAdvance pf schema es (step pf schema now e t))
