-- ===== src/DeviceOperation/Queue.antt =====
-- QueueDeviceOperation, GetPendingDeviceOperation and GetLastDeviceOperation
-- (internal/database/device_operations.go).
use openwrt_controller.Base.{
  ℕ, ◌+◌, Bool, true, false, not, ◌&&◌, ◌||◌, List, Option, none, some, Text, is_empty, any, ltb,
  leb, ◌==◌, text_eq, if◌then◌else◌, pos, Result, ok, err, update_rows, select_row,
}
use openwrt_controller.Schema.{
  Error, sql_error, requires_recovery, id_reused, different_pending, could_not_be_queued,
  device_not_found, generation_conflict, invalid_operation_envelope, recovery_required, state_eq,
  OperationEnvelope, Device, mark_queued, mark_is_running, change_set_state, operation_state,
  is_null, RolloutRun, Tables, is_running, is_fresh,
}
use openwrt_controller.Identity.{safe_schema_ident}
use openwrt_controller.DeviceChangeSet.Queue.{bigint_max}
use openwrt_controller.DeviceOperation.{OperationIdentity, parse_operation_identity}

abbrev eq_opt : Option Text → Text → Bool
eq_opt none t = false
eq_opt (some s) t = text_eq s t

unfoldable pub no_active_rollout : ℕ → List RolloutRun → Device → Bool
no_active_rollout now runs d = not (
    any (λ r. eq_opt d.site_id r.site_id && (is_running r.status && is_fresh now r.updated_at))
      runs)

-- `COALESCE(device.last_operation->>'id', '') <> $3`
abbrev last_is_other : Option OperationEnvelope → Text → Bool
last_is_other none id = not (is_empty id)
last_is_other (some l) id = not (text_eq l.id id)

-- `device.pending_operation->>'operation_id' = $3 AND device.pending_operation = $1::jsonb`; its
-- second comparison is not reached, since the row has no pending operation.
abbrev same_pending : Option OperationEnvelope → OperationEnvelope → Text → Bool
same_pending none e id = false
same_pending (some p) e id = text_eq p.operation_id id && text_eq p.body e.body

unfoldable pub accepts :
    ℕ → Text → OperationEnvelope → OperationIdentity → List RolloutRun → Device → Bool
accepts now device_id e i runs d =
    text_eq d.id device_id
    && (not (mark_is_running d.last_rollout_status)
        && (is_null d.pending_operation
            && (is_null d.pending_change_set
                && (not (state_eq (operation_state d.last_operation) recovery_required)
                    && (not (state_eq (change_set_state d.last_change_set) recovery_required)
                        && (no_active_rollout now runs d
                            && ((ltb 0 i.generation
                                  && (d.desired_generation == i.generation
                                      && ((is_null d.pending_operation
                                            && last_is_other d.last_operation i.id)
                                          || same_pending d.pending_operation e i.id)))
                                || (i.generation == 0
                                    && (is_null d.pending_operation
                                        && last_is_other d.last_operation i.id)))))))))

unfoldable pub queue_row : ℕ → OperationEnvelope → OperationIdentity → Device → Device
queue_row now e i d = record d {
  pending_operation = some (
      if ltb 0 i.generation
      then e
      else record e { generation = some (pos (d.desired_generation + 1)) });
  desired_generation =
      if ltb 0 i.generation then d.desired_generation else d.desired_generation + 1;
  last_operation = none;
  last_rollout_status = some mark_queued;
  last_rollout_at = some now;
  updated_at = now;
}

explain_pending : OperationIdentity → Result Error OperationIdentity → Result Error ℕ
explain_pending i (err e) = err different_pending
explain_pending i (ok p) =
    if not (text_eq p.id i.id)
    then err different_pending
    else if not (text_eq p.plan_hash i.plan_hash)
    then err id_reused
    else if ltb 0 i.generation && not (p.generation == i.generation)
    then err generation_conflict
    else ok p.generation

explain_generation : OperationIdentity → ℕ → Result Error ℕ
explain_generation i desired =
    if ltb 0 i.generation && not (desired == i.generation)
    then err generation_conflict
    else err could_not_be_queued

explain_last : OperationIdentity → ℕ → Result Error OperationIdentity → Result Error ℕ
unfolding explain_generation
explain_last i desired (err e) = explain_generation i desired
explain_last i desired (ok l) =
    if not (text_eq l.id i.id)
    then explain_generation i desired
    else if not (is_empty l.plan_hash) && not (text_eq l.plan_hash i.plan_hash)
    then err id_reused
    else if ltb 0 i.generation
    then (if ltb 0 l.generation && not (l.generation == i.generation)
        then err generation_conflict
        else if not (desired == i.generation)
        then err generation_conflict
        else ok i.generation)
    else ok l.generation

explain_documents :
    OperationIdentity → ℕ → Option OperationEnvelope → Option OperationEnvelope → Result Error ℕ
unfolding explain_pending explain_last explain_generation
explain_documents i desired (some p) last =
    explain_pending i (parse_operation_identity (some p) false)
explain_documents i desired none (some l) =
    explain_last i desired (parse_operation_identity (some l) true)
explain_documents i desired none none = explain_generation i desired

unfoldable pub explain : OperationIdentity → Option Device → Result Error ℕ
unfolding explain_documents
explain i none = err device_not_found
explain i (some d) =
    if state_eq (operation_state d.last_operation) recovery_required
    then err requires_recovery
    else explain_documents i d.desired_generation d.pending_operation d.last_operation

unfoldable pub queue :
    ℕ → Text → OperationEnvelope → OperationIdentity → Tables → Result Error ℕ × Tables
queue now device_id e i t = elim (select_row (accepts now device_id e i t.rollout_runs) t.devices) [
  | none ↦ (explain i (select_row (λ d. text_eq d.id device_id) t.devices), t)
  | some d ↦
      if i.generation == 0 && leb bigint_max d.desired_generation then (err sql_error, t) else (
        ok (queue_row now e i d).desired_generation,
        record t {
          devices =
              update_rows (accepts now device_id e i t.rollout_runs) (queue_row now e i) t.devices;
        },
      )
]

unfoldable pub queue_parsed :
    ℕ
    → Text
    → Option OperationEnvelope
    → Result Error OperationIdentity
    → Tables
    → Result Error ℕ × Tables
queue_parsed now device_id raw (err x) t = (err x, t)
queue_parsed now device_id none (ok i) t = (err invalid_operation_envelope, t)
queue_parsed now device_id (some e) (ok i) t = queue now device_id e i t

unfoldable pub queue_device_operation :
    ℕ → Text → Text → Option OperationEnvelope → Tables → Result Error ℕ × Tables
queue_device_operation now schema device_id raw t = elim (safe_schema_ident schema) [
  | err x ↦ (err x, t)
  | ok s ↦ queue_parsed now device_id raw (parse_operation_identity raw false) t
]

abbrev column_of : (Device → Option OperationEnvelope) → Option Device → Option OperationEnvelope
column_of column none = none
column_of column (some d) = column d

unfoldable pub get_pending_device_operation :
    Text → Text → Tables → Result Error (Option OperationEnvelope)
get_pending_device_operation schema device_id t = elim (safe_schema_ident schema) [
  | err x ↦ err x
  | ok s ↦
      ok (column_of (λ d. d.pending_operation) (select_row (λ d. text_eq d.id device_id) t.devices))
]

unfoldable pub get_last_device_operation :
    Text → Text → Tables → Result Error (Option OperationEnvelope)
get_last_device_operation schema device_id t = elim (safe_schema_ident schema) [
  | err x ↦ err x
  | ok s ↦
      ok (column_of (λ d. d.last_operation) (select_row (λ d. text_eq d.id device_id) t.devices))
]
