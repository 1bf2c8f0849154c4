-- ===== src/RolloutWorker/Fencing.antt =====
-- The calls of a worker whose run another one claimed (internal/database/rollout_worker.go).
use openwrt_controller.Base.{
  ℕ, ◌+◌, ◌≡◌, ◌≢◌, false, List, [], ◌∷◌, Text, All, ok, err, arith, text_eq_iff, inl, inr,
  update_rows, update_rows_none_of, count_rows_none_of, some, Option-cases, ◌∙◌, ap,
}
use openwrt_controller.Schema.{rollout_lease_lost, RunResult, RolloutRun, Tables}
use openwrt_controller.Identity.{safe_schema_ident}
use openwrt_controller.RolloutWorker.Lease.{
  RolloutLease, is_claimable, first_by_generation, has_id, take_lease, claim_lease,
  claim_queued_rollout, is_held_by, fenced_update, update_rollout_worker_cursor,
  update_rollout_worker_results, renew_rollout_lease,
}

-- A call under a lease that no run honours.
abbrev pub IsFencedOut : ℕ → RolloutLease → Tables → Type 0
IsFencedOut now l t = All (λ r. is_held_by now l r ≡ false) t.rollout_runs

fenced_out :
    (now : ℕ) (l : RolloutLease) (f : RolloutRun → RolloutRun) (t : Tables)
    → IsFencedOut now l t
    → fenced_update now l f t ≡ (err rollout_lease_lost, t)
unfolding fenced_update
fenced_out now l f t a =
    rw (count_rows_none_of (is_held_by now l) t.rollout_runs a)
      (rw (update_rows_none_of (is_held_by now l) f t.rollout_runs a))

-- After another worker took the run, no row honours the old lease.
taken_rows :
    (now later until : ℕ) (token id : Text) (l : RolloutLease) (rs : List RolloutRun)
    → l.rollout_id ≡ id
    → l.token ≢ token
    → All
        (λ r. is_held_by later l r ≡ false)
        (update_rows (has_id id) (take_lease now token until) rs)
unfolding update_rows is_held_by take_lease
taken_rows now later until token id l [] same ne = tt
taken_rows now later until token id l (r ∷ rs) same ne = (
  ground (arith, text_eq_iff r.id id, text_eq_iff token l.token),
  taken_rows now later until token id l rs same ne,
)

-- What a successful claim did.
pub claimed :
    (now : ℕ) (token schema : Text) (duration : ℕ) (new : RolloutLease) (t t' : Tables)
    → claim_queued_rollout now token schema duration t ≡ (ok new, t')
    → (r : RolloutRun) × (first_by_generation (is_claimable now t.rollout_runs) t.rollout_runs
        ≡ some r)
      × (new ≡ record {
        rollout_id = r.id;
        site_id = r.site_id;
        token = token;
        cursor = r.worker_cursor;
      })
      × (t' ≡ record t {
        rollout_runs =
            update_rows (has_id r.id) (take_lease now token (now + duration)) t.rollout_runs;
      })
unfolding claim_queued_rollout claim_lease
claimed now token schema duration new t t' h =
    elim (Option-cases (first_by_generation (is_claimable now t.rollout_runs) t.rollout_runs)) [
      | inl missing ↦ absurd (ground (arith, missing))
      | inr (r, found) ↦ (r, found, ground (arith, found), ground (arith, found))
    ]

claim_fences_out :
    (now later duration : ℕ) (token schema : Text) (old new : RolloutLease) (t t' : Tables)
    → claim_queued_rollout now token schema duration t ≡ (ok new, t')
    → old.rollout_id ≡ new.rollout_id
    → old.token ≢ token
    → IsFencedOut later old t'
claim_fences_out now later duration token schema old new t t' h same ne =
    let (r, found, lease, tables) = claimed now token schema duration new t t' h in
    rw tables (
      taken_rows now later (now + duration) token r.id old t.rollout_runs
        (same ∙ ap (λ (l : RolloutLease). l.rollout_id) lease) ne)

-- After a worker claimed a run, every call under an earlier lease of that run, at any time, is refused
-- as lost and changes no table: moving the cursor, replacing the results and renewing the lease.
pub stale_worker_is_fenced :
    (now later duration duration' cursor : ℕ) (token schema : Text) (rs : List RunResult)
    (old new : RolloutLease) (t t' : Tables)
    → safe_schema_ident schema ≡ ok schema
    → claim_queued_rollout now token schema duration t ≡ (ok new, t')
    → old.rollout_id ≡ new.rollout_id
    → old.token ≢ token
    → (update_rollout_worker_cursor later schema old cursor t' ≡ (err rollout_lease_lost, t'))
      × (update_rollout_worker_results later schema old rs t' ≡ (err rollout_lease_lost, t'))
      × (renew_rollout_lease later schema old duration' t' ≡ (err rollout_lease_lost, t'))
unfolding update_rollout_worker_cursor update_rollout_worker_results renew_rollout_lease
stale_worker_is_fenced now later duration duration' cursor token schema rs old new t t' valid h same
      ne =
    let out = claim_fences_out now later duration token schema old new t t' h same ne in
    (
      rw (valid, update_rollout_worker_cursor) (fenced_out later old _ t' out),
      rw (valid, update_rollout_worker_results) (fenced_out later old _ t' out),
      rw (valid, renew_rollout_lease) (fenced_out later old _ t' out),
    )
