-- ===== src/RolloutWorker/Lease.antt =====
-- ClaimQueuedRollout, RenewRolloutLease, UpdateRolloutWorkerCursor and UpdateRolloutWorkerResults
-- (internal/database/rollout_worker.go).
use openwrt_controller.Base.{
  ℕ, ◌+◌, Bool, false, not, ◌&&◌, ◌||◌, List, [], ◌∷◌, Option, none, some, Text, any, ltb, leb, max,
  ◌==◌, text_eq, if◌then◌else◌, Result, ok, err, update_rows, count_rows,
}
use openwrt_controller.Schema.{
  Error, rollout_lease_unavailable, rollout_lease_lost, lease_duration_not_positive, running,
  RunResult, RolloutRun, Tables, is_running, is_queued,
}
use openwrt_controller.Identity.{safe_schema_ident}

-- `RolloutLease`.
pub record RolloutLease : Type 0 where
  pub rollout_id : Text
  pub site_id : Text
  pub token : Text
  pub cursor : ℕ

-- `worker_lease_until >= CURRENT_TIMESTAMP`
abbrev pub lease_live : ℕ → Option ℕ → Bool
lease_live now none = false
lease_live now (some u) = leb now u

-- `worker_lease_until < CURRENT_TIMESTAMP`
abbrev pub lease_expired : ℕ → Option ℕ → Bool
lease_expired now none = false
lease_expired now (some u) = ltb u now

-- The run of a site that a worker is advancing.
unfoldable pub holds_site : ℕ → Text → RolloutRun → Bool
holds_site now site r =
    text_eq r.site_id site && (is_running r.status && lease_live now r.worker_lease_until)

-- The WHERE of the subquery.
unfoldable pub is_claimable : ℕ → List RolloutRun → RolloutRun → Bool
is_claimable now runs r =
    (is_queued r.status || (is_running r.status && lease_expired now r.worker_lease_until))
    && not (any (holds_site now r.site_id) runs)

abbrev lower_generation : RolloutRun → Option RolloutRun → Option RolloutRun
lower_generation r none = some r
lower_generation r (some s) = if leb r.generation s.generation then some r else some s

-- ORDER BY generation LIMIT 1; the first row where generations are equal.
unfoldable pub first_by_generation : (RolloutRun → Bool) → List RolloutRun → Option RolloutRun
first_by_generation p [] = none
first_by_generation p (r ∷ rs) =
    let rest = first_by_generation p rs in if p r then lower_generation r rest else rest

abbrev pub has_id : Text → RolloutRun → Bool
has_id id r = text_eq r.id id

unfoldable pub take_lease : ℕ → Text → ℕ → RolloutRun → RolloutRun
take_lease now token until r = record r {
  status = running;
  worker_token = some token;
  worker_lease_until = some until;
  updated_at = now;
}

-- The UPDATE; `token` is what gen_random_uuid() gives, and `duration` the lease in microseconds. It is
-- one step: claims that overlap, each on a snapshot without the other, are not modelled.
unfoldable pub claim_lease : ℕ → Text → ℕ → Tables → Result Error RolloutLease × Tables
claim_lease now token duration t =
    elim (first_by_generation (is_claimable now t.rollout_runs) t.rollout_runs) [
      | none ↦ (err rollout_lease_unavailable, t)
      | some r ↦ (
        ok (record {
          rollout_id = r.id;
          site_id = r.site_id;
          token = token;
          cursor = r.worker_cursor;
        }),
        record t {
          rollout_runs =
              update_rows (has_id r.id) (take_lease now token (now + duration)) t.rollout_runs;
        },
      )
    ]

unfoldable pub claim_queued_rollout :
    ℕ → Text → Text → ℕ → Tables → Result Error RolloutLease × Tables
claim_queued_rollout now token schema duration t = elim (safe_schema_ident schema) [
  | err x ↦ (err x, t)
  | ok s ↦
      if duration == 0
      then (err lease_duration_not_positive, t)
      else claim_lease now token duration t
]

abbrev pub token_is : Option Text → Text → Bool
token_is none token = false
token_is (some w) token = text_eq w token

-- The fence of every mutating call.
unfoldable pub is_held_by : ℕ → RolloutLease → RolloutRun → Bool
is_held_by now l r =
    text_eq r.id l.rollout_id
    && (text_eq r.site_id l.site_id
        && (is_running r.status
            && (token_is r.worker_token l.token && lease_live now r.worker_lease_until)))

-- An UPDATE under the fence.
unfoldable pub fenced_update :
    ℕ → RolloutLease → (RolloutRun → RolloutRun) → Tables → Result Error Unit × Tables
fenced_update now l f t =
    let t' = record t { rollout_runs = update_rows (is_held_by now l) f t.rollout_runs } in
    if not (count_rows (is_held_by now l) t.rollout_runs == 1)
    then (err rollout_lease_lost, t')
    else (ok tt, t')

unfoldable pub set_cursor : ℕ → ℕ → RolloutRun → RolloutRun
set_cursor now cursor r = record r { worker_cursor = max r.worker_cursor cursor; updated_at = now }

unfoldable pub update_rollout_worker_cursor :
    ℕ → Text → RolloutLease → ℕ → Tables → Result Error Unit × Tables
update_rollout_worker_cursor now schema l cursor t = elim (safe_schema_ident schema) [
  | err x ↦ (err x, t)
  | ok s ↦ fenced_update now l (set_cursor now cursor) t
]

unfoldable pub set_results : ℕ → List RunResult → RolloutRun → RolloutRun
set_results now rs r = record r { results = rs; updated_at = now }

unfoldable pub update_rollout_worker_results :
    ℕ → Text → RolloutLease → List RunResult → Tables → Result Error Unit × Tables
update_rollout_worker_results now schema l rs t = elim (safe_schema_ident schema) [
  | err x ↦ (err x, t)
  | ok s ↦ fenced_update now l (set_results now rs) t
]

unfoldable pub set_lease : ℕ → ℕ → RolloutRun → RolloutRun
set_lease now until r = record r { worker_lease_until = some until; updated_at = now }

-- The duration is that of a worker, which is positive.
unfoldable pub renew_rollout_lease :
    ℕ → Text → RolloutLease → ℕ → Tables → Result Error Unit × Tables
renew_rollout_lease now schema l duration t = elim (safe_schema_ident schema) [
  | err x ↦ (err x, t)
  | ok s ↦ fenced_update now l (set_lease now (now + duration)) t
]
