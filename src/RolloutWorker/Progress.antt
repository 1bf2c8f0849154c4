-- ===== src/RolloutWorker/Progress.antt =====
-- GetRolloutProgress (internal/database/rollout_worker.go), and the worker's reading of it: the cursor
-- of reconcileLease and canAdvancePhase (internal/rolloutworker/worker.go).
use openwrt_controller.Base.{
  ℕ, ◌+◌, suc, Bool, true, false, not, ◌&&◌, ◌||◌, List, [], ◌∷◌, none, some, Text, any, all, ltb,
  ◌==◌, ◌≤◌, length, text_eq, if◌then◌else◌, Result, ok, err, select_row, ◌≡◌, arith, ◌↔◌,
  Result-cases, Option-cases, inl, inr, subst,
}
use openwrt_controller.Schema.{
  Error, no_rows, RunResult, RolloutRun, RunStatus, Tables, is_running, committed, restored,
  recovery_required, rejected, state_eq, ResultStatus, State, success, skipped,
}
use openwrt_controller.Identity.{safe_schema_ident}

pub record RolloutProgress : Type 0 where
  pub status : RunStatus
  pub terminal_count : ℕ
  pub result_count : ℕ
  pub failure_count : ℕ
  pub plan : Text
  pub results : List RunResult

abbrev is_success : ResultStatus → Bool
is_success success = true
is_success skipped = true
is_success _ = false

unfoldable pub is_terminal : RunResult → Bool
is_terminal r =
    is_success r.status
    || (state_eq r.change_set_state committed
        || (state_eq r.change_set_state restored
            || (state_eq r.change_set_state recovery_required
                || state_eq r.change_set_state rejected)))

unfoldable pub is_failure : RunResult → Bool
is_failure r =
    is_terminal r && (not (is_success r.status) && not (state_eq r.change_set_state committed))

-- One turn of the loop over the results.
count_result : RunResult → RolloutProgress → RolloutProgress
count_result r p =
    if is_terminal r
    then record p {
      terminal_count = suc p.terminal_count;
      failure_count = if is_failure r then suc p.failure_count else p.failure_count;
    }
    else p

count_results : List RunResult → RolloutProgress → RolloutProgress
unfolding count_result
count_results [] p = p
count_results (r ∷ rs) p = count_results rs (count_result r p)

progress_of : RolloutRun → RolloutProgress
unfolding count_results
progress_of r = count_results r.results record {
  status = r.status;
  terminal_count = 0;
  result_count = length r.results;
  failure_count = 0;
  plan = r.plan;
  results = r.results;
}

abbrev pub is_run_of : Text → Text → RolloutRun → Bool
is_run_of rollout_id site_id r = text_eq r.id rollout_id && text_eq r.site_id site_id

unfoldable pub get_rollout_progress : Text → Text → Text → Tables → Result Error RolloutProgress
unfolding progress_of
get_rollout_progress schema rollout_id site_id t = elim (safe_schema_ident schema) [
  | err x ↦ err x
  | ok s ↦ elim (select_row (is_run_of rollout_id site_id) t.rollout_runs) [
    | none ↦ err no_rows
    | some r ↦ ok (progress_of r)
  ]
]

-- `lease.Cursor` after the update of reconcileLease.
unfoldable pub next_cursor : ℕ → RolloutProgress → ℕ
next_cursor cursor p = if ltb cursor p.terminal_count then p.terminal_count else cursor

unfoldable pub can_advance_phase : ℕ → RolloutProgress → Bool
can_advance_phase cursor p = ltb 0 cursor && p.failure_count == 0

-- Where reconcileLease returns: the run no longer runs, or all its results are terminal.
unfoldable pub is_settled : RolloutProgress → Bool
is_settled p =
    not (is_running p.status) || (ltb 0 p.result_count && p.terminal_count == p.result_count)

-- How many results a test holds of.
count : (RunResult → Bool) → List RunResult → ℕ
count q [] = 0
count q (r ∷ rs) = let n = count q rs in if q r then suc n else n

count_results_lem :
    (rs : List RunResult) (p : RolloutProgress)
    → ((count_results rs p).terminal_count ≡ p.terminal_count + count is_terminal rs)
      × ((count_results rs p).failure_count ≡ p.failure_count + count is_failure rs)
      × ((count_results rs p).result_count ≡ p.result_count)
      × ((count_results rs p).status ≡ p.status)
unfolding count_results count_result count is_failure
count_results_lem [] p = ground arith
count_results_lem (r ∷ rs) p = ground (arith, count_results_lem rs (count_result r p))

count-le : (q : RunResult → Bool) (rs : List RunResult) → count q rs ≤ length rs
unfolding count
count-le q [] = omega arith
count-le q (r ∷ rs) = ground (arith, count-le q rs)

count-all :
    (q : RunResult → Bool) (rs : List RunResult) → (count q rs ≡ length rs) ↔ (all q rs ≡ true)
unfolding count
count-all q [] = ground arith
count-all q (r ∷ rs) = ground (arith, count-le q rs, count-all q rs)

count-any : (q : RunResult → Bool) (rs : List RunResult) → (count q rs ≡ 0) ↔ (any q rs ≡ false)
unfolding count
count-any q [] = ground arith
count-any q (r ∷ rs) = ground (arith, count-any q rs)

-- What became of a result, by its status and the state of its change set.
pub data Outcome : Type 0 where
  succeeded did_fail still_open : Outcome

unfoldable pub outcome_of_change : State → Outcome
outcome_of_change committed = succeeded
outcome_of_change restored = did_fail
outcome_of_change recovery_required = did_fail
outcome_of_change rejected = did_fail
outcome_of_change _ = still_open

unfoldable pub outcome_of : ResultStatus → State → Outcome
unfolding outcome_of_change
outcome_of success state = succeeded
outcome_of skipped state = succeeded
outcome_of _ state = outcome_of_change state

abbrev pub same_outcome : Outcome → Outcome → Bool
same_outcome succeeded succeeded = true
same_outcome did_fail did_fail = true
same_outcome still_open still_open = true
same_outcome _ _ = false

-- How many results have an outcome.
unfoldable pub tally : Outcome → List RunResult → ℕ
unfolding outcome_of
tally o [] = 0
tally o (r ∷ rs) =
    let n = tally o rs in
    if same_outcome o (outcome_of r.status r.change_set_state) then suc n else n

progress_of_run :
    (schema rollout_id site_id : Text) (t : Tables) (p : RolloutProgress)
    → get_rollout_progress schema rollout_id site_id t ≡ ok p
    → (r : RolloutRun) × (select_row (is_run_of rollout_id site_id) t.rollout_runs ≡ some r)
      × (p ≡ progress_of r)
unfolding get_rollout_progress
progress_of_run schema rollout_id site_id t p h = elim (Result-cases (safe_schema_ident schema)) [
  | inl (x, e) ↦ absurd (ground arith)
  | inr (n, e) ↦ elim (Option-cases (select_row (is_run_of rollout_id site_id) t.rollout_runs)) [
    | inl f ↦ absurd (ground arith)
    | inr (r, f) ↦ (r, f, ground arith)
  ]
]

progress_of_lem :
    (r : RolloutRun)
    → ((progress_of r).terminal_count ≡ count is_terminal r.results)
      × ((progress_of r).failure_count ≡ count is_failure r.results)
      × ((progress_of r).result_count ≡ length r.results)
      × ((progress_of r).status ≡ r.status)
unfolding progress_of
progress_of_lem r =
    let (a, b, c, d) = count_results_lem r.results _ in (omega (arith, a), omega (arith, b), c, d)

tests_agree :
    (result : ResultStatus) (state : State)
    → ((is_success result
          || (state_eq state committed
              || (state_eq state restored
                  || (state_eq state recovery_required || state_eq state rejected))))
        ≡ not (same_outcome still_open (outcome_of result state)))
      × ((not (is_success result) && not (state_eq state committed))
          ≡ not (same_outcome succeeded (outcome_of result state)))
unfolding outcome_of state_eq
tests_agree result state = ground arith

tallies :
    (rs : List RunResult)
    → (count is_terminal rs ≡ tally succeeded rs + tally did_fail rs)
      × (count is_failure rs ≡ tally did_fail rs)
      × (length rs ≡ tally succeeded rs + (tally did_fail rs + tally still_open rs))
unfolding count tally is_terminal is_failure
tallies [] = ground arith
tallies (r ∷ rs) = ground (arith, tests_agree r.status r.change_set_state, tallies rs)

run_decides :
    (r : RolloutRun) (p : RolloutProgress) (cursor : ℕ)
    → p ≡ progress_of r
    → (can_advance_phase cursor p ≡ (ltb 0 cursor && not (any is_failure r.results)))
      × (is_settled p
          ≡ (not (is_running r.status) || (ltb 0 (length r.results) && all is_terminal r.results)))
unfolding can_advance_phase is_settled
run_decides r p cursor e =
    ground
      (arith, progress_of_lem r, count-all is_terminal r.results, count-any is_failure r.results)

-- GetRolloutProgress counts what became of the results of the run. A result with the status SUCCESS or
-- SKIPPED or a COMMITTED change set has succeeded; any other whose change set is RESTORED,
-- RECOVERY_REQUIRED or REJECTED has failed; the rest are open. The failures are those that failed, the
-- terminal results those that succeeded or failed, and all results those with the open ones.
pub progress_counts_outcomes :
    (schema rollout_id site_id : Text) (t : Tables) (r : RolloutRun) (p : RolloutProgress)
    → select_row (is_run_of rollout_id site_id) t.rollout_runs ≡ some r
    → get_rollout_progress schema rollout_id site_id t ≡ ok p
    → (p.failure_count ≡ tally did_fail r.results)
      × (p.terminal_count ≡ tally succeeded r.results + tally did_fail r.results)
      × (p.result_count
          ≡ tally succeeded r.results + (tally did_fail r.results + tally still_open r.results))
progress_counts_outcomes schema rollout_id site_id t r p s h =
    let (r2, f, e) = progress_of_run schema rollout_id site_id t p h in
    let same : r2 ≡ r = cc in
    let run : p ≡ progress_of r = subst (λ z. p ≡ progress_of z) same e in
    ground (arith, progress_of_lem r, tallies r.results)

-- From the progress of the run that it reads, the worker may queue the next phase just when its cursor
-- is above 0 and no result is a failure, and it is done with the run just when the run is not RUNNING
-- or has results that are all terminal.
pub progress_decides :
    (schema rollout_id site_id : Text) (t : Tables) (r : RolloutRun) (p : RolloutProgress)
    (cursor : ℕ)
    → select_row (is_run_of rollout_id site_id) t.rollout_runs ≡ some r
    → get_rollout_progress schema rollout_id site_id t ≡ ok p
    → (can_advance_phase cursor p ≡ (ltb 0 cursor && not (any is_failure r.results)))
      × (is_settled p
          ≡ (not (is_running r.status) || (ltb 0 (length r.results) && all is_terminal r.results)))
progress_decides schema rollout_id site_id t r p cursor s h =
    let (r', f, e) = progress_of_run schema rollout_id site_id t p h in
    run_decides r p cursor (ground arith)
