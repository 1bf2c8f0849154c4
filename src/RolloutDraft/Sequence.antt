-- ===== src/RolloutDraft/Sequence.antt =====
-- The runs of a site after CreateRolloutDraft (internal/database/rollout_drafts.go).
use openwrt_controller.Base.{
  ℕ, ◌<◌, ◌≡◌, ◌≢◌, refl, true, List, [], ◌∷◌, ◌++◌, Text, All, ok, arith, update_rows,
}
use openwrt_controller.Schema.{draft, RolloutRun, Tables}
use openwrt_controller.RolloutDraft.Drafts.{
  RolloutDraftRecord, of_site, max_generation, superseded_by, make_stale, new_run, create,
  create_rollout_draft,
}

-- A run of the site is below the generation, and no draft.
pub record IsBehind (site : Text) (n : ℕ) (r : RolloutRun) : Type 0 where
  pub below : of_site site r ≡ true → r.generation < n
  pub closed : of_site site r ≡ true → r.status ≢ draft

behind :
    (now : ℕ) (site : Text) (n : ℕ) (rs : List RolloutRun)
    → max_generation site rs < n
    → All (IsBehind site n) (update_rows (superseded_by site n) (make_stale now) rs)
unfolding max_generation update_rows superseded_by make_stale
behind now site n [] h = tt
behind now site n (r ∷ rs) h = (
  record { below = λ s. ground arith; closed = λ s e. ground arith },
  behind now site n rs (ground arith),
)

-- A draft that is created ends the list of runs with a generation above every run of its site; the
-- runs that were there before keep their place, and none of the site is a DRAFT any more.
pub create-newest :
    (now : ℕ) (id schema site requested_by plan_hash targets plan : Text) (t t' : Tables)
    (d : RolloutDraftRecord)
    → create_rollout_draft now id schema site requested_by plan_hash targets plan t ≡ (ok d, t')
    → (before : List RolloutRun) × (t'.rollout_runs
        ≡ before ++ new_run now id site d.generation plan_hash requested_by targets plan ∷ [])
      × (before ≡ update_rows (superseded_by site d.generation) (make_stale now) t.rollout_runs)
      × All (IsBehind site d.generation) before
unfolding create_rollout_draft create new_run
create-newest now id schema site requested_by plan_hash targets plan t t' d h = (
  update_rows (superseded_by site d.generation) (make_stale now) t.rollout_runs,
  ground arith,
  refl,
  behind now site d.generation t.rollout_runs (ground arith),
)
