-- ===== src/Schema/Rollouts.antt =====
-- A row of `rollout_runs` (internal/database/postgres.go), and the tables of one tenant schema.
use openwrt_controller.Base.{ℕ, ◌+◌, Bool, true, false, Option, List, Text, leb}
use openwrt_controller.Schema.Documents.{State}
use openwrt_controller.Schema.Devices.{Device}

-- `status`; `other` is any text that this code does not write.
pub data RunStatus : Type 0 where
  draft running queued stale rejected_run completed failed other : RunStatus

-- The `status` of an entry of `results`.
pub data ResultStatus : Type 0 where
  no_status waiting result_queued success skipped result_failed result_rejected : ResultStatus
  other_result : ResultStatus

-- One entry of the `results` array.
pub record RunResult : Type 0 where
  pub device_id : Option Text
  pub status : ResultStatus
  pub change_set_id : Option Text
  pub change_set_state : State
  pub plan_hash : Option Text
  pub device_generation : Option ℕ
  pub output : Option Text
  pub error : Option Text

pub record RolloutRun : Type 0 where
  pub id : Text
  pub site_id : Text
  pub generation : ℕ
  pub status : RunStatus
  pub claim_token : Option Text
  pub worker_token : Option Text
  pub worker_lease_until : Option ℕ
  pub worker_cursor : ℕ
  pub plan_hash : Text
  pub requested_by : Text
  pub target_device_ids : Text
  pub plan : Text
  pub results : List RunResult
  pub updated_at : ℕ

pub record Tables : Type 0 where
  pub devices : List Device
  pub rollout_runs : List RolloutRun
  -- the actions that `InsertAuditLogContext` appended, newest first
  pub audit_logs : List Text

abbrev pub is_running : RunStatus → Bool
is_running running = true
is_running _ = false

abbrev pub is_queued : RunStatus → Bool
is_queued queued = true
is_queued _ = false

abbrev pub is_draft : RunStatus → Bool
is_draft draft = true
is_draft _ = false

-- `INTERVAL '20 minutes'`, in the microseconds of a PostgreSQL timestamp.
unfoldable pub run_timeout : ℕ
run_timeout = 1200000000

-- `updated_at >= CURRENT_TIMESTAMP - INTERVAL '20 minutes'`.
abbrev pub is_fresh : ℕ → ℕ → Bool
is_fresh now updated_at = leb now (updated_at + run_timeout)
