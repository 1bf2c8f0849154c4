-- ===== src/DeviceOperation/Status.antt =====
-- RecordDeviceOperationStatus of internal/database/device_operations.go.
use openwrt_controller.Base.{
  ℕ, Bool, true, false, not, ◌&&◌, ◌||◌, Option, none, some, Text, is_empty, ltb, ◌==◌, max,
  text_eq, if◌then◌else◌, Result, ok, err, update_rows, count_rows,
}
use openwrt_controller.Schema.{
  Error, invalid_operation_status, device_operation_status_not_applied, State, committed, restored,
  state_eq, OperationEnvelope, generation_is, generation_absent, Device, reported, mark_is_running,
  operation_state, is_null, Tables,
}
use openwrt_controller.Identity.{safe_schema_ident}
use openwrt_controller.DeviceOperation.{
  OperationIdentity, parse_operation_identity, valid_device_operation_state,
}

-- `$6` and `$7`: the plan hash and the generation, empty where the status leaves them out.
abbrev hash_matches : Option OperationEnvelope → OperationIdentity → Bool
hash_matches none i = false
hash_matches (some p) i =
    (not (is_empty i.plan_hash) && text_eq p.plan_hash i.plan_hash)
    || (is_empty i.plan_hash && generation_absent p.generation)

abbrev generation_matches : Option OperationEnvelope → OperationIdentity → Bool
generation_matches none i = i.generation == 0
generation_matches (some p) i = i.generation == 0 || generation_is p.generation i.generation

unfoldable pub is_settled : State → Bool
is_settled committed = true
is_settled restored = true
is_settled _ = false

abbrev pending_id_is : Option OperationEnvelope → Text → Bool
pending_id_is none id = false
pending_id_is (some p) id = text_eq p.operation_id id

abbrev last_id_is : Option OperationEnvelope → Text → Bool
last_id_is none id = false
last_id_is (some l) id = text_eq l.id id

unfoldable pub pending_match : OperationIdentity → Device → Bool
pending_match i d =
    pending_id_is d.pending_operation i.id
    && (hash_matches d.pending_operation i && generation_matches d.pending_operation i)

unfoldable pub last_match : OperationIdentity → State → Device → Bool
last_match i state d =
    is_null d.pending_change_set
    && (last_id_is d.last_operation i.id
        && (hash_matches d.last_operation i
            && (generation_matches d.last_operation i
                && (not (is_settled (operation_state d.last_operation))
                    || state_eq (operation_state d.last_operation) state))))

unfoldable pub status_row : ℕ → OperationEnvelope → OperationIdentity → Device → Device
status_row now e i d = record d {
  last_operation = some e;
  pending_operation = if is_settled e.state && pending_match i d then none else d.pending_operation;
  last_rollout_status =
      if mark_is_running d.last_rollout_status
      then d.last_rollout_status
      else some (reported e.state);
  last_health_check_at = if is_settled e.state then some now else d.last_health_check_at;
  observed_generation =
      if is_settled e.state && (state_eq e.state committed && ltb 0 i.generation)
      then max d.observed_generation i.generation
      else d.observed_generation;
  last_successful_generation =
      if is_settled e.state && (state_eq e.state committed && ltb 0 i.generation)
      then max d.last_successful_generation i.generation
      else d.last_successful_generation;
  updated_at = now;
}

abbrev pub matches : OperationIdentity → Text → State → Device → Bool
matches i device_id state d = text_eq d.id device_id && (pending_match i d || last_match i state d)

unfoldable pub record_parsed :
    ℕ
    → Text
    → Option OperationEnvelope
    → Result Error OperationIdentity
    → Tables
    → Result Error Unit × Tables
record_parsed now device_id raw (err x) t = (err invalid_operation_status, t)
record_parsed now device_id none (ok i) t = (err invalid_operation_status, t)
record_parsed now device_id (some e) (ok i) t =
    if not (valid_device_operation_state e.state)
    then (err invalid_operation_status, t)
    else if not (count_rows (matches i device_id e.state) t.devices == 1)
    then (
      err device_operation_status_not_applied,
      record t {
        devices = update_rows (matches i device_id e.state) (status_row now e i) t.devices;
      },
    )
    else (
      ok tt,
      record t {
        devices = update_rows (matches i device_id e.state) (status_row now e i) t.devices;
      },
    )

unfoldable pub record_device_operation_status :
    ℕ → Text → Text → Option OperationEnvelope → Tables → Result Error Unit × Tables
record_device_operation_status now schema device_id raw t = elim (safe_schema_ident schema) [
  | err x ↦ (err x, t)
  | ok s ↦ record_parsed now device_id raw (parse_operation_identity raw true) t
]
