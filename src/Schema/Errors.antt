-- ===== src/Schema/Errors.antt =====
-- The errors that the database layer returns. The sentinel errors keep their Go names; the others
-- are named for their message.
pub data Error : Type 0 where
  -- a failure that PostgreSQL reports, here a BIGINT out of range or a NULL read into a string
  sql_error : Error
  -- sql.ErrNoRows
  no_rows : Error
  invalid_schema_identifier : Error
  -- parseDeviceChangeSet
  invalid_change_set invalid_change_set_identity invalid_change_set_generation : Error
  invalid_change_set_status unsupported_change_set unsupported_change_set_operation : Error
  invalid_health_checks invalid_change_set_command plan_hash_mismatch : Error
  -- queueDeviceChangeSet and RecordDeviceChangeSetStatus
  different_device not_in_owning_site role_not_current requires_recovery id_reused : Error
  different_pending could_not_be_queued : Error
  device_not_found device_change_set_capability generation_conflict : Error
  device_change_set_status_not_applied : Error
  -- device_operations.go
  invalid_operation_envelope invalid_operation_identity invalid_operation_status : Error
  invalid_operation_generation device_operation_status_not_applied : Error
  -- rollout_drafts.go
  rollout_draft_not_found rollout_draft_not_available no_change_sets : Error
  result_missing_device result_unknown_device result_duplicate_device : Error
  results_do_not_cover : Error
  -- rollout_worker.go
  rollout_lease_unavailable rollout_lease_lost lease_duration_not_positive : Error
