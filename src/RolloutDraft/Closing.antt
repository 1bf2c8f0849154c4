-- ===== src/RolloutDraft/Closing.antt =====
-- RejectRolloutDraft, ReleaseRolloutDraft and MarkRolloutDraftStale
-- (internal/database/rollout_drafts.go).
use openwrt_controller.Base.{
  ℕ, Bool, false, not, ◌&&◌, ◌||◌, List, [], ◌∷◌, Option, none, some, Text, ◌==◌, text_eq,
  if◌then◌else◌, Result, ok, err, update_rows, select_row, count_rows,
}
use openwrt_controller.Schema.{
  Error, rollout_draft_not_available, absent, draft, rejected_run, result_rejected, RunResult,
  RolloutRun, Tables, is_running, is_draft,
}
use openwrt_controller.Identity.{safe_schema_ident}
use openwrt_controller.RolloutDraft.Drafts.{has_key, make_stale, fail_device, marked_in_site}

-- `jsonb_build_array(jsonb_build_object('status', 'REJECTED', 'error', $3::text))`
unfoldable pub rejection : Text → List RunResult
rejection reason =
    record {
      device_id = none;
      status = result_rejected;
      change_set_id = none;
      change_set_state = absent;
      plan_hash = none;
      device_generation = none;
      output = none;
      error = some reason;
    }
    ∷ []

abbrev pub draft_with_key : Text → Text → RolloutRun → Bool
draft_with_key id site r = has_key id site r && is_draft r.status

unfoldable pub reject_run : ℕ → Text → RolloutRun → RolloutRun
reject_run now reason r = record r {
  status = rejected_run;
  results = rejection reason;
  updated_at = now;
}

-- An UPDATE of runs whose affected rows must be one.
unfoldable pub update_one_run :
    (RolloutRun → Bool) → (RolloutRun → RolloutRun) → Error → Tables → Result Error Unit × Tables
update_one_run p f e t =
    let t' = record t { rollout_runs = update_rows p f t.rollout_runs } in
    if not (count_rows p t.rollout_runs == 1) then (err e, t') else (ok tt, t')

unfoldable pub reject_rollout_draft :
    ℕ → Text → Text → Text → Text → Tables → Result Error Unit × Tables
reject_rollout_draft now schema site id reason t = elim (safe_schema_ident schema) [
  | err x ↦ (err x, t)
  | ok s ↦
      update_one_run (draft_with_key id site) (reject_run now reason) rollout_draft_not_available t
]

abbrev pub token_is : Option Text → Text → Bool
token_is none token = false
token_is (some c) token = text_eq c token

-- `status = 'RUNNING' AND claim_token::text = $3`
unfoldable pub is_claimed_by : Text → RolloutRun → Bool
is_claimed_by token r = is_running r.status && token_is r.claim_token token

abbrev pub claimed_with_key : Text → Text → Text → RolloutRun → Bool
claimed_with_key id site token r = has_key id site r && is_claimed_by token r

unfoldable pub release_run : ℕ → RolloutRun → RolloutRun
release_run now r = record r { status = draft; claim_token = none; updated_at = now }

unfoldable pub release_rollout_draft :
    ℕ → Text → Text → Text → Text → Tables → Result Error Unit × Tables
release_rollout_draft now schema site id token t = elim (safe_schema_ident schema) [
  | err x ↦ (err x, t)
  | ok s ↦
      update_one_run (claimed_with_key id site token) (release_run now) rollout_draft_not_available
        t
]

abbrev pub open_with_key : Text → Text → Text → RolloutRun → Bool
open_with_key id site token r = has_key id site r && (is_draft r.status || is_claimed_by token r)

-- The transaction of MarkRolloutDraftStale: SELECT FOR UPDATE, UPDATE by key, and the devices of a run
-- that was RUNNING.
unfoldable pub mark_stale : ℕ → Text → Text → Text → Tables → Result Error Unit × Tables
mark_stale now site id token t = elim (select_row (open_with_key id site token) t.rollout_runs) [
  | none ↦ (err rollout_draft_not_available, t)
  | some r ↦
      if not (count_rows (has_key id site) t.rollout_runs == 1)
      then (err rollout_draft_not_available, t)
      else (
        ok tt,
        record t {
          rollout_runs = update_rows (has_key id site) (make_stale now) t.rollout_runs;
          devices =
              if is_running r.status
              then update_rows (marked_in_site site) (fail_device now) t.devices
              else t.devices;
        },
      )
]

unfoldable pub mark_rollout_draft_stale :
    ℕ → Text → Text → Text → Text → Tables → Result Error Unit × Tables
mark_rollout_draft_stale now schema site id token t = elim (safe_schema_ident schema) [
  | err x ↦ (err x, t)
  | ok s ↦ mark_stale now site id token t
]
