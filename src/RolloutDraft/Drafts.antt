-- ===== src/RolloutDraft/Drafts.antt =====
-- CreateRolloutDraft, GetRolloutDraft and ClaimRolloutDraft (internal/database/rollout_drafts.go).
use openwrt_controller.Base.{
  ℕ, ◌+◌, Bool, true, false, not, ◌&&◌, List, [], ◌∷◌, ◌++◌, Option, none, some, Text, codes, any,
  ltb, max, text_eq, if◌then◌else◌, Result, ok, err, update_rows, select_row,
}
use openwrt_controller.Schema.{
  Error, sql_error, rollout_draft_not_found, rollout_draft_not_available, Device, mark_failed,
  mark_is_running, RunStatus, draft, running, stale, RunResult, RolloutRun, Tables, is_running,
  is_draft, is_fresh,
}
use openwrt_controller.Identity.{safe_schema_ident}
use openwrt_controller.DeviceChangeSet.Queue.{bigint_max}

-- `RolloutDraftRecord`.
pub record RolloutDraftRecord : Type 0 where
  pub id : Text
  pub site_id : Text
  pub generation : ℕ
  pub status : RunStatus
  pub claim_token : Text
  pub plan_hash : Text
  pub requested_by : Text
  pub target_device_ids : Text
  pub plan : Text
  pub results : List RunResult

abbrev pub of_site : Text → RolloutRun → Bool
of_site site r = text_eq r.site_id site

-- `COALESCE(MAX(generation), 0)` of a site.
unfoldable pub max_generation : Text → List RolloutRun → ℕ
max_generation site [] = 0
max_generation site (r ∷ rs) =
    let rest = max_generation site rs in if of_site site r then max r.generation rest else rest

unfoldable pub superseded_by : Text → ℕ → RolloutRun → Bool
superseded_by site n r = of_site site r && (is_draft r.status && ltb r.generation n)

unfoldable pub make_stale : ℕ → RolloutRun → RolloutRun
make_stale now r = record r { status = stale; claim_token = none; updated_at = now }

-- The INSERT, with the columns' defaults; `id` is what gen_random_uuid() gives.
unfoldable pub new_run : ℕ → Text → Text → ℕ → Text → Text → Text → Text → RolloutRun
new_run now id site n plan_hash requested_by targets plan = record {
  id = id;
  site_id = site;
  generation = n;
  status = draft;
  claim_token = none;
  worker_token = none;
  worker_lease_until = none;
  worker_cursor = 0;
  plan_hash = plan_hash;
  requested_by = requested_by;
  target_device_ids = targets;
  plan = plan;
  results = [];
  updated_at = now;
}

abbrev text_or_empty : Option Text → Text
text_or_empty none = codes ""
text_or_empty (some s) = s

abbrev pub record_of : RolloutRun → RolloutDraftRecord
record_of r = record {
  id = r.id;
  site_id = r.site_id;
  generation = r.generation;
  status = r.status;
  claim_token = text_or_empty r.claim_token;
  plan_hash = r.plan_hash;
  requested_by = r.requested_by;
  target_device_ids = r.target_device_ids;
  plan = r.plan;
  results = r.results;
}

-- The transaction of CreateRolloutDraft; the sequence may leave BIGINT.
unfoldable pub create :
    ℕ → Text → Text → Text → Text → Text → Text → Tables → Result Error RolloutDraftRecord × Tables
create now id site requested_by plan_hash targets plan t =
    let n = max_generation site t.rollout_runs + 1 in
    let r = new_run now id site n plan_hash requested_by targets plan in
    if ltb bigint_max n then (err sql_error, t) else (
      ok (record_of r),
      record t {
        rollout_runs = update_rows (superseded_by site n) (make_stale now) t.rollout_runs ++ r ∷ [];
      },
    )

unfoldable pub create_rollout_draft :
    ℕ
    → Text
    → Text
    → Text
    → Text
    → Text
    → Text
    → Text
    → Tables
    → Result Error RolloutDraftRecord × Tables
create_rollout_draft now id schema site requested_by plan_hash targets plan t =
    elim (safe_schema_ident schema) [
      | err x ↦ (err x, t)
      | ok s ↦ create now id site requested_by plan_hash targets plan t
    ]

abbrev pub has_key : Text → Text → RolloutRun → Bool
has_key id site r = text_eq r.id id && of_site site r

abbrev found_record : Option RolloutRun → Result Error RolloutDraftRecord
found_record none = err rollout_draft_not_found
found_record (some r) = ok (record_of r)

unfoldable pub get_rollout_draft : Text → Text → Text → Tables → Result Error RolloutDraftRecord
get_rollout_draft schema site id t = elim (safe_schema_ident schema) [
  | err x ↦ err x
  | ok s ↦ found_record (select_row (has_key id site) t.rollout_runs)
]

-- The CTE `expired`.
unfoldable pub is_expired : ℕ → Text → RolloutRun → Bool
is_expired now site r = of_site site r && (is_running r.status && not (is_fresh now r.updated_at))

-- A DRAFT of the site above a generation.
unfoldable pub newer_draft : Text → ℕ → RolloutRun → Bool
newer_draft site n r = of_site site r && (is_draft r.status && ltb n r.generation)

-- The CTE `superseded`, on the rows as they were before the statement.
unfoldable pub is_superseded : Text → List RolloutRun → RolloutRun → Bool
is_superseded site runs r =
    of_site site r && (is_draft r.status && any (newer_draft site r.generation) runs)

unfoldable pub is_active : ℕ → Text → RolloutRun → Bool
is_active now site r = of_site site r && (is_running r.status && is_fresh now r.updated_at)

-- The WHERE of the main UPDATE.
unfoldable pub is_candidate : ℕ → Text → Text → List RolloutRun → RolloutRun → Bool
is_candidate now site id runs r =
    has_key id site r
    && (is_draft r.status
        && (not (any (newer_draft site r.generation) runs) && not (any (is_active now site) runs)))

unfoldable pub make_running : ℕ → Text → RolloutRun → RolloutRun
make_running now token r = record r { status = running; claim_token = some token; updated_at = now }

abbrev site_is : Text → Option Text → Bool
site_is site none = false
site_is site (some s) = text_eq s site

-- The three UPDATEs of runs in one statement; no row meets two of their conditions.
unfoldable pub claim_run : ℕ → Text → Text → Text → List RolloutRun → RolloutRun → RolloutRun
claim_run now token site id runs r =
    if is_expired now site r
    then make_stale now r
    else if is_superseded site runs r
    then make_stale now r
    else if is_candidate now site id runs r
    then make_running now token r
    else r

unfoldable pub fail_device : ℕ → Device → Device
fail_device now d = record d { last_rollout_status = some mark_failed; last_rollout_at = some now }

unfoldable pub marked_in_site : Text → Device → Bool
marked_in_site site d = site_is site d.site_id && mark_is_running d.last_rollout_status

-- The CTE `expired_devices`.
unfoldable pub expire_devices : ℕ → Text → List RolloutRun → List Device → List Device
expire_devices now site runs ds =
    if any (is_expired now site) runs
    then update_rows (marked_in_site site) (fail_device now) ds
    else ds

-- `claimRolloutDraftTx`, whose caller rolls back on an error; `token` is what gen_random_uuid() gives.
unfoldable pub claim_rollout_draft_tx :
    ℕ → Text → Text → Text → Tables → Result Error RolloutDraftRecord × Tables
claim_rollout_draft_tx now token site id t =
    elim (select_row (is_candidate now site id t.rollout_runs) t.rollout_runs) [
      | none ↦ (err rollout_draft_not_available, t)
      | some r ↦ (
        ok (record_of (make_running now token r)),
        record t {
          devices = expire_devices now site t.rollout_runs t.devices;
          rollout_runs =
              update_rows (λ x. true) (claim_run now token site id t.rollout_runs) t.rollout_runs;
        },
      )
    ]

unfoldable pub claim_rollout_draft :
    ℕ → Text → Text → Text → Text → Tables → Result Error RolloutDraftRecord × Tables
claim_rollout_draft now token schema site id t = elim (safe_schema_ident schema) [
  | err x ↦ (err x, t)
  | ok s ↦ claim_rollout_draft_tx now token site id t
]
