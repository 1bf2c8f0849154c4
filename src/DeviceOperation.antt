-- ===== src/DeviceOperation.antt =====
-- The legacy operation queue of a device (internal/database/device_operations.go): the identity of a
-- document here, delivery in Queue and status reports in Status.
pub mod Queue
pub mod Status
pub mod Laws
use openwrt_controller.Base.{
  ℕ, ◌+◌, Bool, true, false, not, ◌&&◌, ◌||◌, List, Option, none, some, Text, is_empty, any, ltb,
  leb, ◌==◌, max, text_eq, if◌then◌else◌, ℤ, pos, negsuc, Result, ok, err, update_rows, select_row,
  count_rows,
}
use openwrt_controller.Schema.{
  Error, sql_error, requires_recovery, id_reused, different_pending, could_not_be_queued,
  device_not_found, generation_conflict, invalid_operation_envelope, invalid_operation_identity,
  invalid_operation_status, invalid_operation_generation, device_operation_status_not_applied,
  State, applying, pending_confirm, rolling_back, committed, restored, recovery_required, state_eq,
  OperationEnvelope, generation_is, generation_absent, value_or_zero, Device, mark_queued, reported,
  mark_is_running, change_set_state, operation_state, is_null, RolloutRun, Tables, is_running,
  is_fresh,
}
use openwrt_controller.Identity.{
  valid_device_operation_id, valid_device_operation_plan_hash, safe_schema_ident,
}
use openwrt_controller.ChangeSet.{is_negative_generation}
use openwrt_controller.DeviceChangeSet.Queue.{bigint_max}

-- `deviceOperationIdentity`.
pub record OperationIdentity : Type 0 where
  pub id : Text
  pub plan_hash : Text
  pub generation : ℕ

parse_identity : OperationEnvelope → Bool → Result Error OperationIdentity
parse_identity e status =
    let id = if status then e.id else e.operation_id in
    if is_empty id || not (valid_device_operation_id id)
    then err invalid_operation_identity
    else if not status && not (valid_device_operation_plan_hash e.plan_hash)
    then err invalid_operation_identity
    else if status
        && (not (is_empty e.plan_hash) && not (valid_device_operation_plan_hash e.plan_hash))
    then err invalid_operation_status
    else if is_negative_generation e.generation
    then err invalid_operation_generation
    else ok (record { id = id; plan_hash = e.plan_hash; generation = value_or_zero e.generation })

-- `none` is a document that json.Unmarshal refuses.
unfoldable pub parse_operation_identity :
    Option OperationEnvelope → Bool → Result Error OperationIdentity
unfolding parse_identity
parse_operation_identity none status = err invalid_operation_envelope
parse_operation_identity (some e) status = parse_identity e status

unfoldable pub valid_device_operation_state : State → Bool
valid_device_operation_state applying = true
valid_device_operation_state pending_confirm = true
valid_device_operation_state rolling_back = true
valid_device_operation_state committed = true
valid_device_operation_state restored = true
valid_device_operation_state recovery_required = true
valid_device_operation_state _ = false
