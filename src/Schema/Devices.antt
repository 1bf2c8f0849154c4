-- ===== src/Schema/Devices.antt =====
-- A row of `devices`, with the columns that the delivery of changes uses
-- (internal/database/postgres.go).
use openwrt_controller.Base.{ℕ, Bool, true, false, Option, none, some, Text}
use openwrt_controller.Schema.Documents.{State, ChangeSetEnvelope, OperationEnvelope, absent}

-- `last_rollout_status`: the texts RUNNING, QUEUED and FAILED, the state of a status report, and any
-- other text.
pub data DeviceMark : Type 0 where
  mark_running mark_queued mark_failed mark_other : DeviceMark
  reported : State → DeviceMark

pub record Device : Type 0 where
  pub id : Text
  pub site_id : Option Text
  pub device_role : Option Text
  -- `capabilities->'device_change_set'`
  pub change_set_capability : Option Text
  pub desired_generation : ℕ
  pub observed_generation : ℕ
  pub last_successful_generation : ℕ
  pub pending_operation : Option OperationEnvelope
  pub last_operation : Option OperationEnvelope
  pub pending_change_set : Option ChangeSetEnvelope
  pub last_change_set : Option ChangeSetEnvelope
  pub last_rollout_status : Option DeviceMark
  pub last_rollout_at : Option ℕ
  pub last_health_check_at : Option ℕ
  pub updated_at : ℕ

-- `COALESCE(last_rollout_status, '') = 'RUNNING'`.
abbrev pub mark_is_running : Option DeviceMark → Bool
mark_is_running (some mark_running) = true
mark_is_running _ = false

-- `COALESCE(last_change_set->>'state', '')`.
abbrev pub change_set_state : Option ChangeSetEnvelope → State
change_set_state none = absent
change_set_state (some e) = e.state

-- `COALESCE(last_operation->>'state', '')`.
abbrev pub operation_state : Option OperationEnvelope → State
operation_state none = absent
operation_state (some e) = e.state

abbrev pub is_null {ℓ} : {A : Type ℓ} → Option A → Bool
is_null none = true
is_null (some a) = false
