-- ===== src/Tests/Runs.antt =====
-- Rollout drafts and the worker's lease, at sample rows.
use openwrt_controller.DeviceChangeSet.Queue.{bigint_max}
use openwrt_controller.Base.{
  ℕ, ◌+◌, ◌≡◌, ◌≤◌, refl, arith, true, not, ◌&&◌, ◌||◌, ltb, length, all, any, List, [], ◌∷◌, ◌++◌,
  some, Text, codes, All, text_eq, text_eq→eq, ok, err, count_rows, update_rows, Pointwise,
  select_row,
}
use openwrt_controller.Schema.{
  absent, committed, rejected, Tables, running, queued, draft, waiting, result_queued, success,
  RolloutRun, RunResult, is_running, rollout_lease_lost, state_eq,
}
use openwrt_controller.Identity.{safe_schema_ident, schema_char}
use openwrt_controller.RolloutDraft.Drafts.{
  create_rollout_draft, claim_rollout_draft, record_of, new_run, make_stale, make_running,
  superseded_by, is_candidate, claim_rollout_draft_tx, claim_run, create, expire_devices, is_active,
  is_expired, is_superseded, max_generation, newer_draft,
}
use openwrt_controller.RolloutDraft.Queueing.{add_device_generations, add_entries, lookup}
use openwrt_controller.RolloutDraft.Claims.{claim-exclusive, IsSettledBy}
use openwrt_controller.RolloutDraft.Sequence.{create-newest, IsBehind}
use openwrt_controller.RolloutDraft.Coverage.{
  add_device_generations-covers, IsGenerated, names_device,
}
use openwrt_controller.RolloutWorker.Lease.{
  RolloutLease, has_id, holds_site, claim_queued_rollout, update_rollout_worker_cursor,
  update_rollout_worker_results, renew_rollout_lease, claim_lease, first_by_generation,
  is_claimable, take_lease,
}
use openwrt_controller.RolloutWorker.Fencing.{stale_worker_is_fenced}
use openwrt_controller.RolloutWorker.Exclusion.{
  WorkerCall, claim, renew, move_cursor, calls, IsExclusive, calls-IsExclusive,
}
use openwrt_controller.RolloutWorker.Progress.{
  RolloutProgress, get_rollout_progress, can_advance_phase, is_settled, is_failure, is_terminal,
  is_run_of, progress_counts_outcomes, tally, succeeded, did_fail, still_open, progress_decides,
}
use openwrt_controller.Tests.Samples.{hash, schema, router, site, run_of, entry, tables_of}

valid_schema : safe_schema_ident schema ≡ ok schema
unfolding safe_schema_ident schema_char
valid_schema = refl

abbrev two_queued : Tables
two_queued = tables_of [] (run_of (codes "run-1") 1 queued ∷ run_of (codes "run-2") 2 queued ∷ [])

distinct_ids : (id : Text) → count_rows (has_id id) two_queued.rollout_runs ≤ 1
unfolding count_rows
distinct_ids id = ground (arith, text_eq→eq (codes "run-1") id, text_eq→eq (codes "run-2") id)

none_held : (s : Text) → count_rows (holds_site 10 s) two_queued.rollout_runs ≤ 1
unfolding count_rows holds_site
none_held s = ground arith

abbrev first_lease : RolloutLease
first_lease = record { rollout_id = codes "run-1"; site_id = site; token = codes "w-1"; cursor = 0 }

-- One worker claims the first run and lets its lease run out, another takes it over, and the first one
-- comes back.
abbrev worker_calls : List (ℕ × WorkerCall)
worker_calls =
    (1, claim (codes "w-1") 100)
    ∷ (1, claim (codes "w-2") 100)
    ∷ (200, claim (codes "w-3") 100)
    ∷ (1, renew first_lease 100)
    ∷ (1, move_cursor first_lease 1)
    ∷ []

calls-IsExclusive_example :
    IsExclusive
      (calls 10 schema worker_calls two_queued).0
      (calls 10 schema worker_calls two_queued).1
calls-IsExclusive_example =
    calls-IsExclusive 10 schema worker_calls two_queued
      (record { keys = distinct_ids; holders = none_held })

abbrev abandoned : RolloutRun
abandoned = record (run_of (codes "run-1") 1 running) {
  worker_token = some (codes "w-1");
  worker_lease_until = some 50;
}

abbrev taken_over : RolloutRun
taken_over = record abandoned {
  worker_token = some (codes "w-2");
  worker_lease_until = some 190;
  updated_at = 90;
}

abbrev new_lease : RolloutLease
new_lease = record first_lease { token = codes "w-2" }

take_over :
    claim_queued_rollout 90 (codes "w-2") schema 100 (tables_of [] (abandoned ∷ []))
    ≡ (ok new_lease, tables_of [] (taken_over ∷ []))
unfolding claim_queued_rollout safe_schema_ident schema_char claim_lease first_by_generation
    is_claimable holds_site text_eq update_rows take_lease
take_over = refl

stale_worker_is_fenced_example :
    (update_rollout_worker_cursor 95 schema first_lease 3 (tables_of [] (taken_over ∷ []))
      ≡ (err rollout_lease_lost, tables_of [] (taken_over ∷ [])))
    × (update_rollout_worker_results 95 schema first_lease [] (tables_of [] (taken_over ∷ []))
        ≡ (err rollout_lease_lost, tables_of [] (taken_over ∷ [])))
    × (renew_rollout_lease 95 schema first_lease 100 (tables_of [] (taken_over ∷ []))
        ≡ (err rollout_lease_lost, tables_of [] (taken_over ∷ [])))
stale_worker_is_fenced_example =
    stale_worker_is_fenced 90 95 100 100 3 (codes "w-2") schema [] first_lease new_lease
      (tables_of [] (abandoned ∷ [])) (tables_of [] (taken_over ∷ [])) valid_schema take_over refl
      (ground arith)

abbrev new_draft : RolloutRun
new_draft = run_of (codes "run-3") 3 draft

abbrev drafts : Tables
drafts = tables_of [] (run_of (codes "run-2") 2 draft ∷ new_draft ∷ [])

abbrev claimed_drafts : Tables
claimed_drafts =
    tables_of [] (
      make_stale 40 (run_of (codes "run-2") 2 draft) ∷ make_running 40 (codes "c-1") new_draft ∷ [])

claim_done :
    claim_rollout_draft 40 (codes "c-1") schema site (codes "run-3") drafts
    ≡ (ok (record_of (make_running 40 (codes "c-1") new_draft)), claimed_drafts)
unfolding claim_rollout_draft safe_schema_ident schema_char claim_rollout_draft_tx select_row
    is_candidate text_eq newer_draft is_active expire_devices update_rows is_expired make_stale
    claim_run make_running is_superseded
claim_done = refl

claim-exclusive_example :
    All
      (IsSettledBy 40 (codes "c-1") site (codes "run-3") drafts.rollout_runs)
      claimed_drafts.rollout_runs
    × ((r : RolloutRun) × (is_candidate 40 site (codes "run-3") drafts.rollout_runs r ≡ true)
        × (record_of (make_running 40 (codes "c-1") new_draft)
            ≡ record_of (make_running 40 (codes "c-1") r)))
claim-exclusive_example =
    claim-exclusive 40 (codes "c-1") schema site (codes "run-3") drafts claimed_drafts
      (record_of (make_running 40 (codes "c-1") new_draft)) claim_done

abbrev created : RolloutRun
created = new_run 50 (codes "run-4") site 4 hash (codes "admin") (codes "[]") (codes "{}")

abbrev older : List RolloutRun
older = make_stale 50 (run_of (codes "run-2") 2 draft) ∷ make_stale 50 new_draft ∷ []

create_run :
    create_rollout_draft 50
      (codes "run-4")
      schema
      site
      (codes "admin")
      hash
      (codes "[]")
      (codes "{}")
      drafts
    ≡ (ok (record_of created), tables_of [] (older ++ created ∷ []))
unfolding create_rollout_draft safe_schema_ident schema_char create bigint_max max_generation
    text_eq update_rows make_stale superseded_by
create_run = refl

create-newest_example :
    (before : List RolloutRun) × (older ++ created ∷ []
      ≡ before
        ++ new_run 50 (codes "run-4") site 4 hash (codes "admin") (codes "[]") (codes "{}") ∷ [])
    × (before ≡ update_rows (superseded_by site 4) (make_stale 50) drafts.rollout_runs)
    × All (IsBehind site 4) before
unfolding new_run
create-newest_example =
    create-newest 50 (codes "run-4") schema site (codes "admin") hash (codes "[]") (codes "{}")
      drafts (tables_of [] (older ++ created ∷ [])) (record_of created) create_run

abbrev entries : List RunResult
entries = entry router result_queued absent ∷ entry (codes "r2") waiting absent ∷ []

abbrev numbered : List RunResult
numbered =
    record (entry router result_queued absent) { device_generation = some 5 }
    ∷ entry (codes "r2") waiting absent
    ∷ []

number_run : add_device_generations ((router, 5) ∷ []) entries ≡ ok numbered
unfolding add_device_generations add_entries lookup text_eq
number_run = refl

add_device_generations-covers_example :
    Pointwise (IsGenerated ((router, 5) ∷ [])) entries numbered
    × All {A = Text × ℕ} (λ e. names_device e.0 entries ≡ true) ((router, 5) ∷ [])
add_device_generations-covers_example =
    add_device_generations-covers ((router, 5) ∷ []) entries numbered number_run

abbrev half_done : RolloutRun
half_done = record (run_of (codes "run-1") 1 running) {
  results = entry router success committed ∷ entry (codes "r2") result_queued rejected ∷ [];
}

abbrev half : RolloutProgress
half = record {
  status = running;
  terminal_count = 2;
  result_count = 2;
  failure_count = 1;
  plan = codes "{}";
  results = half_done.results;
}

half_run :
    get_rollout_progress schema (codes "run-1") site (tables_of [] (half_done ∷ [])) ≡ ok half
unfolding get_rollout_progress safe_schema_ident schema_char select_row text_eq is_terminal state_eq
    is_failure
half_run = refl

half_selected : select_row (is_run_of (codes "run-1") site) (half_done ∷ []) ≡ some half_done
unfolding select_row text_eq
half_selected = refl

progress_counts_outcomes_example :
    (half.failure_count ≡ tally did_fail half_done.results)
    × (half.terminal_count ≡ tally succeeded half_done.results + tally did_fail half_done.results)
    × (half.result_count
        ≡ tally succeeded half_done.results
          + (tally did_fail half_done.results + tally still_open half_done.results))
progress_counts_outcomes_example =
    progress_counts_outcomes schema (codes "run-1") site (tables_of [] (half_done ∷ [])) half_done
      half half_selected half_run

progress_decides_example :
    (can_advance_phase 1 half ≡ (ltb 0 1 && not (any is_failure half_done.results)))
    × (is_settled half ≡ (
        not (is_running half_done.status)
        || (ltb 0 (length half_done.results) && all is_terminal half_done.results)))
progress_decides_example =
    progress_decides schema (codes "run-1") site (tables_of [] (half_done ∷ [])) half_done half 1
      half_selected half_run
