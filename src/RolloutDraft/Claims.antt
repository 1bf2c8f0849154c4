-- ===== src/RolloutDraft/Claims.antt =====
-- The runs of a site after ClaimRolloutDraft (internal/database/rollout_drafts.go).
use openwrt_controller.Base.{
  ℕ, ◌≡◌, Bool, true, false, List, [], ◌∷◌, Text, All, any, ok, arith, text_eq_iff, inl, inr,
  update_rows, select_row, select_row-holds, some, Option-cases,
}
use openwrt_controller.Schema.{draft, running, RolloutRun, Tables}
use openwrt_controller.RolloutDraft.Drafts.{
  RolloutDraftRecord, of_site, is_expired, newer_draft, is_superseded, is_active, is_candidate,
  make_stale, make_running, claim_run, record_of, claim_rollout_draft_tx, claim_rollout_draft,
}

-- A run of the site that is RUNNING is the claimed one, under its token and of this time; and a draft
-- of the site has no newer draft.
pub record IsSettledBy (now : ℕ) (token site id : Text) (runs : List RolloutRun) (r : RolloutRun)
    : Type 0 where
  pub claimed_id : of_site site r ≡ true → r.status ≡ running → r.id ≡ id
  pub claimed_token : of_site site r ≡ true → r.status ≡ running → r.claim_token ≡ some token
  pub claimed_at : of_site site r ≡ true → r.status ≡ running → r.updated_at ≡ now
  pub newest_draft :
      of_site site r ≡ true → r.status ≡ draft → any (newer_draft site r.generation) runs ≡ false

any-false_of :
    {A : Type 0} (p : A → Bool) (xs : List A) → any p xs ≡ false → All (λ x. p x ≡ false) xs
any-false_of p [] h = tt
any-false_of p (x ∷ xs) h = (ground arith, any-false_of p xs (ground arith))

claim_run-IsSettledBy :
    (now : ℕ) (token site id : Text) (runs : List RolloutRun) (r : RolloutRun)
    → is_active now site r ≡ false
    → IsSettledBy now token site id runs (claim_run now token site id runs r)
unfolding claim_run is_active is_expired is_superseded is_candidate make_stale make_running
claim_run-IsSettledBy now token site id runs r inactive = record {
  claimed_id = λ s e. ground (arith, text_eq_iff r.id id);
  claimed_token = λ s e. ground arith;
  claimed_at = λ s e. ground arith;
  newest_draft = λ s e. ground arith;
}

claim-All :
    (now : ℕ) (token site id : Text) (runs rs : List RolloutRun)
    → All (λ r. is_active now site r ≡ false) rs
    → All
        (IsSettledBy now token site id runs)
        (update_rows (λ x. true) (claim_run now token site id runs) rs)
unfolding update_rows
claim-All now token site id runs [] a = tt
claim-All now token site id runs (r ∷ rs) a =
    (claim_run-IsSettledBy now token site id runs r a.0, claim-All now token site id runs rs a.1)

-- After a draft is claimed, every RUNNING run of the site is that draft, with the new claim token and
-- this time: runs that had not moved for twenty minutes were made STALE, and there was no other. A
-- draft of the site that is left had no newer draft. The claimed record is a DRAFT that was there.
pub claim-exclusive :
    (now : ℕ) (token schema site id : Text) (t t' : Tables) (d : RolloutDraftRecord)
    → claim_rollout_draft now token schema site id t ≡ (ok d, t')
    → All (IsSettledBy now token site id t.rollout_runs) t'.rollout_runs
      × ((r : RolloutRun) × (is_candidate now site id t.rollout_runs r ≡ true)
          × (d ≡ record_of (make_running now token r)))
unfolding claim_rollout_draft claim_rollout_draft_tx
claim-exclusive now token schema site id t t' d h =
    elim (Option-cases (select_row (is_candidate now site id t.rollout_runs) t.rollout_runs)) [
      | inl missing ↦ absurd (ground (arith, missing))
      | inr (r, found) ↦
          let chosen =
            select_row-holds (is_candidate now site id t.rollout_runs) t.rollout_runs r found in
          let quiet : any (is_active now site) t.rollout_runs ≡ false =
            unfold is_candidate in ground (arith, chosen) in
          let runs : t'.rollout_runs
              ≡ update_rows (λ x. true) (claim_run now token site id t.rollout_runs)
                  t.rollout_runs =
            ground (arith, found) in
          (
            rw runs (
                claim-All now token site id t.rollout_runs t.rollout_runs
                  (any-false_of (is_active now site) t.rollout_runs quiet)),
            (r, chosen, ground (arith, found)),
          )
    ]
