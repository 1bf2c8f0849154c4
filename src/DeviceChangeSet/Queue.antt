-- ===== src/DeviceChangeSet/Queue.antt =====
-- queueDeviceChangeSet and its two callers, GetPendingDeviceChangeSet and GetLastDeviceChangeSet
-- (internal/database/device_change_sets.go).
use openwrt_controller.Base.{
  ℕ, ◌+◌, Bool, true, false, not, ◌&&◌, ◌||◌, List, Option, none, some, Text, codes, is_empty, any,
  ltb, leb, ◌==◌, text_eq, if◌then◌else◌, pos, Result, ok, err, update_rows, select_row,
}
use openwrt_controller.Schema.{
  Error, sql_error, different_device, not_in_owning_site, role_not_current, requires_recovery,
  id_reused, different_pending, could_not_be_queued, device_not_found, device_change_set_capability,
  generation_conflict, Platform, recovery_required, state_eq, ChangeSetEnvelope, Device,
  mark_queued, mark_is_running, change_set_state, operation_state, is_null, RolloutRun, Tables,
  is_running, is_fresh,
}
use openwrt_controller.Identity.{safe_schema_ident}
use openwrt_controller.ChangeSet.{ChangeSetIdentity, parse_device_change_set}

-- `ownerSiteID`, `ownerRole` and `ownerRolloutID`; an empty rollout is no owner.
pub record Owner : Type 0 where
  pub site_id : Text
  pub role : Text
  pub rollout_id : Text

abbrev pub no_owner : Owner
no_owner = record { site_id = codes ""; role = codes ""; rollout_id = codes "" }

-- `deviceChangeSetCapabilityContract`, as JSONB prints it.
unfoldable pub change_set_capability_contract : Text
change_set_capability_contract =
    codes
      "{\"version\":2,\"namespaces\":[\"system\",\"dhcp\",\"firewall\",\"dropbear\",\"sqm\"],\"max_operations\":8,\"confirmation_policies\":[\"local_auto\"]}"

unfoldable pub bigint_max : ℕ
bigint_max = 9223372036854775807

abbrev eq_opt : Option Text → Text → Bool
eq_opt none t = false
eq_opt (some s) t = text_eq s t

-- `COALESCE(device.device_role, 'AP')`
abbrev role_of : Option Text → Text
role_of none = codes "AP"
role_of (some r) = r

-- The two tests on the capability; the third of the source is never NULL.
unfoldable pub has_capability : Platform → Option Text → Bool
has_capability pf none = false
has_capability pf (some c) = pf.jsonb_eq c change_set_capability_contract

capability_contained : Platform → Option Text → Bool
capability_contained pf none = false
capability_contained pf (some c) = pf.jsonb_contains c change_set_capability_contract

-- `LOWER(device.site_id::text) = LOWER($5)`
lower_eq : Platform → Option Text → Text → Bool
lower_eq pf none t = false
lower_eq pf (some s) t = text_eq (pf.lower s) (pf.lower t)

-- `ownerConstraints`
owner_allows : Platform → Owner → List RolloutRun → Device → Bool
unfolding lower_eq
owner_allows pf o runs d =
    if is_empty o.rollout_id
    then true
    else lower_eq pf d.site_id o.site_id
      && (any
            (λ r.
              text_eq (pf.lower r.id) (pf.lower o.rollout_id)
              && (eq_opt d.site_id r.site_id && is_running r.status))
            runs
          && text_eq (role_of d.device_role) o.role)

-- NOT EXISTS (active rollout of the site), less `activeRolloutExclusion`.
unfoldable pub no_active_rollout : Platform → ℕ → Owner → List RolloutRun → Device → Bool
no_active_rollout pf now o runs d = not (
    any
      (λ r.
        eq_opt d.site_id r.site_id
        && (is_running r.status
            && (is_fresh now r.updated_at
                && (is_empty o.rollout_id
                    || not (text_eq (pf.lower r.id) (pf.lower o.rollout_id))))))
      runs)

-- `COALESCE(device.last_change_set->>'change_set_id', '') <> $3`
abbrev last_is_other : Option ChangeSetEnvelope → Text → Bool
last_is_other none id = not (is_empty id)
last_is_other (some l) id = not (text_eq l.change_set_id id)

-- The WHERE of the UPDATE.
unfoldable pub accepts :
    Platform → ℕ → Owner → Text → ChangeSetIdentity → List RolloutRun → Device → Bool
unfolding owner_allows capability_contained
accepts pf now o device_id i runs d =
    text_eq d.id device_id
    && (owner_allows pf o runs d
        && (has_capability pf d.change_set_capability
            && (capability_contained pf d.change_set_capability
                && (is_null d.pending_operation
                    && (is_null d.pending_change_set
                        && (not (state_eq (operation_state d.last_operation) recovery_required)
                            && (not
                                  (state_eq (change_set_state d.last_change_set) recovery_required)
                                && (last_is_other d.last_change_set i.id
                                    && (not (mark_is_running d.last_rollout_status)
                                        && (no_active_rollout pf now o runs d
                                            && (i.generation == 0
                                                || d.desired_generation == i.generation)))))))))))

-- The SET of the UPDATE.
unfoldable pub queue_row : ℕ → ChangeSetEnvelope → ChangeSetIdentity → Device → Device
queue_row now e i d = record d {
  pending_change_set = some (
      if ltb 0 i.generation
      then e
      else record e { generation = some (pos (d.desired_generation + 1)) });
  desired_generation =
      if ltb 0 i.generation then d.desired_generation else d.desired_generation + 1;
  last_rollout_status = some mark_queued;
  last_rollout_at = some now;
  updated_at = now;
}

-- After the pending change set was parsed.
explain_pending : ChangeSetIdentity → Result Error ChangeSetIdentity → Result Error ℕ
explain_pending i (err e) = err different_pending
explain_pending i (ok p) =
    if not (text_eq p.id i.id)
    then err different_pending
    else if not (text_eq p.plan_hash i.plan_hash)
    then err id_reused
    else if i.has_gen && not (p.generation == i.generation)
    then err generation_conflict
    else ok p.generation

explain_generation : ChangeSetIdentity → ℕ → Result Error ℕ
explain_generation i desired =
    if i.has_gen && not (desired == i.generation)
    then err generation_conflict
    else err could_not_be_queued

-- After the last change set was parsed as a status.
explain_last : ChangeSetIdentity → ℕ → Result Error ChangeSetIdentity → Result Error ℕ
unfolding explain_generation
explain_last i desired (err e) = explain_generation i desired
explain_last i desired (ok l) =
    if not (text_eq l.id i.id)
    then explain_generation i desired
    else if not (text_eq l.plan_hash i.plan_hash)
    then err id_reused
    else if i.has_gen && not (l.generation == i.generation)
    then err generation_conflict
    else ok l.generation

-- `len(pending) > 0`, then `len(last) > 0`, then the generation.
explain_documents :
    Platform
    → ChangeSetIdentity
    → ℕ
    → Option ChangeSetEnvelope
    → Option ChangeSetEnvelope
    → Result Error ℕ
unfolding explain_pending explain_last explain_generation
explain_documents pf i desired (some p) last =
    explain_pending i (parse_device_change_set pf (some p) false)
explain_documents pf i desired none (some l) =
    explain_last i desired (parse_device_change_set pf (some l) true)
explain_documents pf i desired none none = explain_generation i desired

-- The diagnosis when the UPDATE matched no row, from the SELECT of the device. A NULL site cannot be
-- read into a Go string.
unfoldable pub explain : Platform → Owner → ChangeSetIdentity → Option Device → Result Error ℕ
unfolding explain_documents
explain pf o i none = err device_not_found
explain pf o i (some d) = elim d.site_id [
  | none ↦ err sql_error
  | some site ↦
      if not (is_empty o.rollout_id) && not (pf.equal_fold site o.site_id)
      then err not_in_owning_site
      else if not (is_empty o.rollout_id) && not (text_eq (role_of d.device_role) o.role)
      then err role_not_current
      else if not (has_capability pf d.change_set_capability)
      then err device_change_set_capability
      else if state_eq (change_set_state d.last_change_set) recovery_required
      then err requires_recovery
      else explain_documents pf i d.desired_generation d.pending_change_set d.last_change_set
]

-- The UPDATE with its RETURNING, then the diagnosis. `desired_generation + 1` may leave BIGINT.
unfoldable pub queue :
    Platform
    → ℕ
    → Owner
    → Text
    → ChangeSetEnvelope
    → ChangeSetIdentity
    → Tables
    → Result Error ℕ × Tables
queue pf now o device_id e i t =
    elim (select_row (accepts pf now o device_id i t.rollout_runs) t.devices) [
      | none ↦ (explain pf o i (select_row (λ d. text_eq d.id device_id) t.devices), t)
      | some d ↦
          if i.generation == 0 && leb bigint_max d.desired_generation then (err sql_error, t) else (
            ok (queue_row now e i d).desired_generation,
            record t {
              devices =
                  update_rows (accepts pf now o device_id i t.rollout_runs) (queue_row now e i)
                    t.devices;
            },
          )
    ]

unfoldable pub queue_parsed :
    Platform
    → ℕ
    → Owner
    → Text
    → Option ChangeSetEnvelope
    → Result Error ChangeSetIdentity
    → Tables
    → Result Error ℕ × Tables
queue_parsed pf now o device_id raw (err x) t = (err x, t)
queue_parsed pf now o device_id none (ok i) t = (err different_device, t)
queue_parsed pf now o device_id (some e) (ok i) t =
    if not (pf.equal_fold i.device_id device_id)
    then (err different_device, t)
    else queue pf now o device_id e i t

-- `queueDeviceChangeSet`.
unfoldable pub queue_owned :
    Platform → ℕ → Text → Owner → Text → Option ChangeSetEnvelope → Tables → Result Error ℕ × Tables
unfolding queue_parsed
queue_owned pf now schema o device_id raw t = elim (safe_schema_ident schema) [
  | err x ↦ (err x, t)
  | ok s ↦ queue_parsed pf now o device_id raw (parse_device_change_set pf raw false) t
]

unfoldable pub queue_device_change_set :
    Platform → ℕ → Text → Text → Option ChangeSetEnvelope → Tables → Result Error ℕ × Tables
unfolding queue_owned
queue_device_change_set pf now schema device_id raw t =
    queue_owned pf now schema no_owner device_id raw t

unfoldable pub queue_device_change_set_for_rollout :
    Platform → ℕ → Text → Owner → Text → Option ChangeSetEnvelope → Tables → Result Error ℕ × Tables
unfolding queue_owned
queue_device_change_set_for_rollout pf now schema o device_id raw t =
    queue_owned pf now schema o device_id raw t

abbrev column_of : (Device → Option ChangeSetEnvelope) → Option Device → Option ChangeSetEnvelope
column_of column none = none
column_of column (some d) = column d

unfoldable pub get_pending_device_change_set :
    Text → Text → Tables → Result Error (Option ChangeSetEnvelope)
get_pending_device_change_set schema device_id t = elim (safe_schema_ident schema) [
  | err x ↦ err x
  | ok s ↦
      ok
        (column_of (λ d. d.pending_change_set) (select_row (λ d. text_eq d.id device_id) t.devices))
]

unfoldable pub get_last_device_change_set :
    Text → Text → Tables → Result Error (Option ChangeSetEnvelope)
get_last_device_change_set schema device_id t = elim (safe_schema_ident schema) [
  | err x ↦ err x
  | ok s ↦
      ok (column_of (λ d. d.last_change_set) (select_row (λ d. text_eq d.id device_id) t.devices))
]
