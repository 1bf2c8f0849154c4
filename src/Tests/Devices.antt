-- ===== src/Tests/Devices.antt =====
-- The delivery of change sets, at sample devices.
use openwrt_controller.Base.{
  ℕ, ◌≡◌, ◌≤◌, refl, arith, true, false, List, [], ◌∷◌, some, codes, pos, All, text_eq, ok, err,
  count_rows, select_row, update_rows,
}
use openwrt_controller.Schema.{
  applying, committed, recovery_required, Device, Tables, mark_queued, mark_running,
  device_change_set_status_not_applied, running, result_queued, RunResult, state_eq,
}
use openwrt_controller.Identity.{
  safe_schema_ident, safe_tenant_schema, device_change_set_config_allowed, device_id_char,
  health_char, health_pattern, name_char, operation_id_char, schema_char, section_pattern,
  valid_device_change_set_device_id, valid_device_change_set_id, valid_device_operation_plan_hash,
}
use openwrt_controller.Identity.Laws.{safe_tenant_schema-safe_schema_ident}
use openwrt_controller.ChangeSet.{
  parse_device_change_set, identity_of, commands_valid, device_change_set_plan_hash,
  operations_supported, valid_device_change_set_command, valid_health_checks,
}
use openwrt_controller.DeviceChangeSet.Queue
use openwrt_controller.DeviceChangeSet.Status
use openwrt_controller.DeviceChangeSet.Requeue.{requeue_is_idempotent}
use openwrt_controller.DeviceChangeSet.Lifecycle.{settled_state_is_final}
use openwrt_controller.DeviceChangeSet.Settlement.{report_without_queued_run}
use openwrt_controller.Delivery.{Event, run, queue_change_set, report_change_set}
use openwrt_controller.Delivery.Invariant.{run-IsConsistent, IsConsistent}
use openwrt_controller.Delivery.Quarantine.{recovery_required_blocks, Quarantines, IsQuarantined}
use openwrt_controller.Delivery.Monotone.{run-AllAdvance, AllAdvance}
use openwrt_controller.Tests.Samples.{
  platform, schema, router, site, idle_device, change_set, report, run_of, entry, tables_of,
}

abbrev pub start : Tables
start = tables_of (idle_device ∷ []) []

abbrev pub queued_device : Device
queued_device = record idle_device {
  desired_generation = 5;
  pending_change_set = some (record change_set { generation = some (pos 5) });
  last_rollout_status = some mark_queued;
  last_rollout_at = some 20;
  updated_at = 20;
}

queue_run :
    Queue.queue platform 20 Queue.no_owner router change_set (identity_of change_set) start
    ≡ (ok 5, tables_of (queued_device ∷ []) [])
unfolding Queue.queue select_row Queue.accepts text_eq Queue.has_capability
    Queue.change_set_capability_contract state_eq Queue.no_active_rollout Queue.bigint_max
    Queue.queue_row update_rows
queue_run = refl

-- The change set is queued and reported applied, a second report repeats the first, and it is
-- committed.
abbrev history : List (ℕ × Event)
history =
    (20, queue_change_set router (some change_set))
    ∷ (21, report_change_set router (some (report applying)))
    ∷ (22, report_change_set router (some (report applying)))
    ∷ (23, report_change_set router (some (report committed)))
    ∷ []

idle-IsConsistent : IsConsistent idle_device
idle-IsConsistent = record {
  one_pending = refl;
  pending_operation_bound = omega arith;
  last_operation_bound = omega arith;
  pending_change_set_bound = omega arith;
  last_change_set_bound = omega arith;
  observed_bound = omega arith;
  successful_bound = omega arith;
}

run-IsConsistent_example : All IsConsistent (run platform schema history start).devices
run-IsConsistent_example = run-IsConsistent platform schema history start (idle-IsConsistent, tt)

run-AllAdvance_example : AllAdvance start (run platform schema history start)
run-AllAdvance_example = run-AllAdvance platform schema history start

parsed : parse_device_change_set platform (some change_set) false ≡ ok (identity_of change_set)
unfolding parse_device_change_set valid_device_change_set_id operation_id_char
    valid_device_change_set_device_id device_id_char valid_device_operation_plan_hash text_eq
    operations_supported device_change_set_config_allowed valid_health_checks health_pattern
    health_char commands_valid valid_device_change_set_command section_pattern name_char
    device_change_set_plan_hash
parsed = refl

one_router : count_rows (λ r. text_eq r.id router) start.devices ≤ 1
unfolding count_rows text_eq
one_router = omega arith

requeue_is_idempotent_example :
    Queue.queue platform 30 Queue.no_owner router change_set
      (identity_of change_set)
      (tables_of (queued_device ∷ []) [])
    ≡ (ok 5, tables_of (queued_device ∷ []) [])
requeue_is_idempotent_example =
    requeue_is_idempotent platform 20 30 Queue.no_owner router change_set (identity_of change_set)
      start (tables_of (queued_device ∷ []) []) 5 parsed one_router ((site, refl), tt) queue_run

valid_schema : safe_schema_ident schema ≡ ok schema
unfolding safe_schema_ident schema_char
valid_schema = refl

abbrev recovering_device : Device
recovering_device = record idle_device { last_change_set = some (report recovery_required) }

terminal : Status.is_terminal recovery_required ≡ true
unfolding Status.is_terminal
terminal = refl

settled_state_is_final_example :
    Status.record_device_change_set_status platform 30 schema router
      (some (report committed))
      (tables_of (recovering_device ∷ []) [])
    ≡ (err device_change_set_status_not_applied, tables_of (recovering_device ∷ []) [])
settled_state_is_final_example =
    settled_state_is_final platform 30 schema router (report committed)
      (tables_of (recovering_device ∷ []) []) valid_schema
      ((λ _. (report recovery_required, refl, refl, terminal, ground arith)), tt)

recovering-IsQuarantined : IsQuarantined 4 recovering_device
recovering-IsQuarantined = record {
  no_operation = refl;
  no_change_set = refl;
  needs_recovery = refl;
  at_generation = refl;
}

recovery_required_blocks_example :
    All
      (Quarantines router 4)
      (run platform schema history (tables_of (recovering_device ∷ []) [])).devices
recovery_required_blocks_example =
    recovery_required_blocks platform schema router 4 history
      (tables_of (recovering_device ∷ []) []) ((λ _. recovering-IsQuarantined), tt)

abbrev two_entries : List RunResult
two_entries =
    record (entry router result_queued applying) { change_set_id = some (codes "cs-1") }
    ∷ record (entry (codes "r2") result_queued committed) { change_set_id = some (codes "cs-2") }
    ∷ []

report_without_queued_run_example :
    (Status.record_device_change_set_status platform 30 schema router (some (report committed)) (
      tables_of
        (record queued_device { last_rollout_status = some mark_running } ∷ [])
        (record (run_of (codes "run-1") 1 running) { results = two_entries } ∷ []))).1.rollout_runs
    ≡ record (run_of (codes "run-1") 1 running) { results = two_entries } ∷ []
report_without_queued_run_example =
    report_without_queued_run platform 30 schema router (some (report committed))
      (tables_of (record queued_device { last_rollout_status = some mark_running } ∷ [])
        (record (run_of (codes "run-1") 1 running) { results = two_entries } ∷ []))
      (refl, tt)

tenant_a : safe_tenant_schema (codes "a") ≡ ok schema
unfolding safe_tenant_schema
tenant_a = refl

safe_tenant_schema-safe_schema_ident_example : safe_schema_ident schema ≡ ok schema
safe_tenant_schema-safe_schema_ident_example =
    safe_tenant_schema-safe_schema_ident (codes "a") schema tenant_a
