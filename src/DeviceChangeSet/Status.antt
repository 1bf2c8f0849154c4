-- ===== src/DeviceChangeSet/Status.antt =====
-- RecordDeviceChangeSetStatus of internal/database/device_change_sets.go.
use openwrt_controller.Base.{
  ℕ, Bool, true, false, not, ◌&&◌, ◌||◌, List, map, Option, none, some, Text, is_empty, any, ◌==◌,
  max, text_eq, if◌then◌else◌, Result, ok, err, update_rows, count_rows, select_row,
}
use openwrt_controller.Schema.{
  Error, device_change_set_status_not_applied, Platform, State, absent, prepared, applying,
  pending_confirm, rolling_back, committed, restored, recovery_required, rejected, state_eq,
  ChangeSetEnvelope, generation_is, Device, reported, mark_is_running, is_null, change_set_state,
  RunStatus, queued, completed, failed, success, result_failed, RunResult, RolloutRun, Tables,
  is_queued,
}
use openwrt_controller.Identity.{safe_schema_ident}
use openwrt_controller.ChangeSet.{ChangeSetIdentity, parse_device_change_set}

unfoldable pub is_terminal : State → Bool
is_terminal committed = true
is_terminal restored = true
is_terminal recovery_required = true
is_terminal rejected = true
is_terminal _ = false

-- The CASE of `statusTransition`: the reported state, then the stored one.
unfoldable pub transition_allowed : State → State → Bool
transition_allowed prepared absent = true
transition_allowed prepared prepared = true
transition_allowed applying prepared = true
transition_allowed applying applying = true
transition_allowed pending_confirm applying = true
transition_allowed pending_confirm pending_confirm = true
transition_allowed rolling_back prepared = true
transition_allowed rolling_back applying = true
transition_allowed rolling_back pending_confirm = true
transition_allowed rolling_back rolling_back = true
transition_allowed committed applying = true
transition_allowed committed pending_confirm = true
transition_allowed committed committed = true
transition_allowed restored rolling_back = true
transition_allowed restored restored = true
transition_allowed recovery_required prepared = true
transition_allowed recovery_required applying = true
transition_allowed recovery_required pending_confirm = true
transition_allowed recovery_required rolling_back = true
transition_allowed recovery_required recovery_required = true
transition_allowed rejected absent = true
transition_allowed rejected prepared = true
transition_allowed rejected applying = true
transition_allowed rejected rejected = true
transition_allowed _ _ = false

unfoldable pub status_transition : ChangeSetIdentity → State → Option ChangeSetEnvelope → Bool
status_transition i state none = not (is_empty i.id) || transition_allowed state absent
status_transition i state (some l) =
    not (text_eq l.change_set_id i.id) || transition_allowed state l.state

-- The four comparisons of a stored document with the status.
names : ChangeSetIdentity → Text → Option ChangeSetEnvelope → Bool
names i device_id none = false
names i device_id (some p) =
    text_eq p.change_set_id i.id
    && (text_eq p.device_id device_id
        && (text_eq p.plan_hash i.plan_hash && generation_is p.generation i.generation))

unfoldable pub pending_match : ChangeSetIdentity → Text → State → Device → Bool
unfolding names
pending_match i device_id state d =
    is_null d.pending_operation
    && (names i device_id d.pending_change_set && status_transition i state d.last_change_set)

unfoldable pub last_match : ChangeSetIdentity → Text → State → Device → Bool
unfolding names
last_match i device_id state d =
    is_null d.pending_operation
    && (is_null d.pending_change_set
        && (names i device_id d.last_change_set
            && ((not (is_terminal (change_set_state d.last_change_set))
                  || state_eq (change_set_state d.last_change_set) state)
                && status_transition i state d.last_change_set)))

-- The SET of the UPDATE; `terminal` and COMMITTED go together.
unfoldable pub status_row : ℕ → ChangeSetEnvelope → ChangeSetIdentity → Text → Device → Device
status_row now e i device_id d = record d {
  last_change_set = some e;
  pending_change_set =
      if is_terminal e.state && pending_match i device_id e.state d
      then none
      else d.pending_change_set;
  last_rollout_status =
      if mark_is_running d.last_rollout_status
      then d.last_rollout_status
      else some (reported e.state);
  last_rollout_at = some now;
  last_health_check_at = if is_terminal e.state then some now else d.last_health_check_at;
  observed_generation =
      if is_terminal e.state && state_eq e.state committed
      then max d.observed_generation i.generation
      else d.observed_generation;
  last_successful_generation =
      if is_terminal e.state && state_eq e.state committed
      then max d.last_successful_generation i.generation
      else d.last_successful_generation;
  updated_at = now;
}

abbrev equals : Option Text → Text → Bool
equals none t = false
equals (some s) t = text_eq s t

abbrev pub differs : Option Text → Text → Bool
differs none t = false
differs (some s) t = not (text_eq s t)

-- `result->>'device_id' = $2 AND result->>'change_set_id' = $3`
unfoldable pub same_entry : ChangeSetIdentity → Text → RunResult → Bool
same_entry i device_id r = equals r.device_id device_id && equals r.change_set_id i.id

-- The negation of the same, which is NULL and so not met where a key is missing and the other equal.
unfoldable pub other_entry : ChangeSetIdentity → Text → RunResult → Bool
other_entry i device_id r = differs r.device_id device_id || differs r.change_set_id i.id

unfoldable pub settle_entry : ChangeSetEnvelope → ChangeSetIdentity → Text → RunResult → RunResult
settle_entry e i device_id r =
    if same_entry i device_id r
    then record r {
      status = if state_eq e.state committed then success else result_failed;
      change_set_state = e.state;
      plan_hash = some i.plan_hash;
      device_generation = some i.generation;
      error = if is_empty e.failure then r.error else some e.failure;
    }
    else r

-- The new `status` of the run, from its old results.
unfoldable pub settled_status :
    ChangeSetEnvelope → ChangeSetIdentity → Text → List RunResult → RunStatus
settled_status e i device_id results =
    if any (λ r. other_entry i device_id r && not (is_terminal r.change_set_state)) results
    then queued
    else if any (λ r. other_entry i device_id r && not (state_eq r.change_set_state committed))
        results
    then failed
    else if state_eq e.state committed
    then completed
    else failed

unfoldable pub settle_run :
    ℕ → ChangeSetEnvelope → ChangeSetIdentity → Text → RolloutRun → RolloutRun
settle_run now e i device_id r = record r {
  status = settled_status e i device_id r.results;
  results = map (settle_entry e i device_id) r.results;
  updated_at = now;
}

abbrev site_of : Option Device → Option Text
site_of none = none
site_of (some d) = d.site_id

-- The WHERE of the second UPDATE.
unfoldable pub settles : ChangeSetIdentity → Text → List Device → RolloutRun → Bool
settles i device_id devices r =
    is_queued r.status
    && (equals (site_of (select_row (λ d. text_eq d.id device_id) devices)) r.site_id
        && any (same_entry i device_id) r.results)

unfoldable pub settle : ℕ → ChangeSetEnvelope → ChangeSetIdentity → Text → Tables → Tables
settle now e i device_id t =
    if is_terminal e.state
    then record t {
      rollout_runs =
          update_rows (settles i device_id t.devices) (settle_run now e i device_id) t.rollout_runs;
    }
    else t

abbrev pub matches : ChangeSetIdentity → Text → State → Device → Bool
matches i device_id state d =
    text_eq d.id device_id && (pending_match i device_id state d || last_match i device_id state d)

-- The UPDATE of the device, the count of its rows, and the UPDATE of the run.
unfoldable pub apply_status :
    ℕ → ChangeSetEnvelope → ChangeSetIdentity → Text → Tables → Result Error Unit × Tables
unfolding settle
apply_status now e i device_id t =
    let t' = record t {
      devices = update_rows (matches i device_id e.state) (status_row now e i device_id) t.devices;
    } in
    if not (count_rows (matches i device_id e.state) t.devices == 1)
    then (err device_change_set_status_not_applied, t')
    else (ok tt, settle now e i device_id t')

unfoldable pub record_parsed :
    Platform
    → ℕ
    → Text
    → Option ChangeSetEnvelope
    → Result Error ChangeSetIdentity
    → Tables
    → Result Error Unit × Tables
unfolding apply_status
record_parsed pf now device_id raw (err x) t = (err device_change_set_status_not_applied, t)
record_parsed pf now device_id none (ok i) t = (err device_change_set_status_not_applied, t)
record_parsed pf now device_id (some e) (ok i) t =
    if not (pf.equal_fold i.device_id device_id)
    then (err device_change_set_status_not_applied, t)
    else apply_status now e i device_id t

unfoldable pub record_device_change_set_status :
    Platform → ℕ → Text → Text → Option ChangeSetEnvelope → Tables → Result Error Unit × Tables
unfolding record_parsed
record_device_change_set_status pf now schema device_id raw t = elim (safe_schema_ident schema) [
  | err x ↦ (err x, t)
  | ok s ↦ record_parsed pf now device_id raw (parse_device_change_set pf raw true) t
]
