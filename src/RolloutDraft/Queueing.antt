-- ===== src/RolloutDraft/Queueing.antt =====
-- ClaimAndQueueDeviceChangeSets, ClaimAndQueueDeviceChangeSet and addDeviceGenerations
-- (internal/database/rollout_drafts.go).
use openwrt_controller.Base.{
  ℕ, Bool, true, false, not, List, [], ◌∷◌, ◌++◌, map, all, any, Option, none, some, Text, codes,
  ◌==◌, text_eq, if◌then◌else◌, Result, ok, err, update_rows, count_rows, ◌>>=◌,
}
use openwrt_controller.Schema.{
  Error, rollout_draft_not_available, no_change_sets, result_missing_device, result_unknown_device,
  result_duplicate_device, results_do_not_cover, Platform, ChangeSetEnvelope, queued, ResultStatus,
  waiting, RunResult, RolloutRun, Tables,
}
use openwrt_controller.Identity.{safe_schema_ident}
use openwrt_controller.ChangeSet.{ChangeSetIdentity, parse_device_change_set}
use openwrt_controller.DeviceChangeSet.Queue.{queue_device_change_set_for_rollout}
use openwrt_controller.RolloutDraft.Drafts.{RolloutDraftRecord, claim_rollout_draft_tx}
use openwrt_controller.RolloutDraft.Closing.{claimed_with_key}

-- `DeviceChangeSetQueueItem`.
pub record QueueItem : Type 0 where
  pub device_role : Text
  pub change_set : Option ChangeSetEnvelope

-- `map[string]int64`, the newest entry first.
abbrev pub Generations : Type 0
Generations = List (Text × ℕ)

unfoldable pub lookup : Text → Generations → Option ℕ
lookup k [] = none
lookup k ((j, n) ∷ g) = if text_eq j k then some n else lookup k g

abbrev pub is_waiting : ResultStatus → Bool
is_waiting waiting = true
is_waiting _ = false

abbrev pub is_seen : Text → List Text → Bool
is_seen k seen = any (λ s. text_eq s k) seen

abbrev pub prepend :
    RunResult
    → Result Error (List RunResult × List Text)
    → Result Error (List RunResult × List Text)
prepend r (err x) = err x
prepend r (ok (rs, seen)) = ok (r ∷ rs, seen)

-- One entry of the loop, `next` being the rest of it from the devices seen so far.
unfoldable pub add_entry :
    Generations
    → List Text
    → RunResult
    → Option Text
    → (List Text → Result Error (List RunResult × List Text))
    → Result Error (List RunResult × List Text)
add_entry g seen r none next = err result_missing_device
add_entry g seen r (some device_id) next = elim (lookup device_id g) [
  | none ↦
      if is_waiting r.status then prepend r (next (device_id ∷ seen)) else err result_unknown_device
  | some n ↦
      if is_seen device_id seen
      then err result_duplicate_device
      else prepend (record r { device_generation = some n }) (next (device_id ∷ seen))
]

-- The loop over the results: the new results and the devices seen.
unfoldable pub add_entries :
    Generations → List Text → List RunResult → Result Error (List RunResult × List Text)
unfolding add_entry
add_entries g seen [] = ok ([], seen)
add_entries g seen (r ∷ rs) = add_entry g seen r r.device_id (λ seen'. add_entries g seen' rs)

covered : Generations → Result Error (List RunResult × List Text) → Result Error (List RunResult)
covered g (err x) = err x
covered g (ok (rs, seen)) =
    if all (λ e. is_seen e.0 seen) g then ok rs else err results_do_not_cover

unfoldable pub add_device_generations : Generations → List RunResult → Result Error (List RunResult)
unfolding covered
add_device_generations g rs = covered g (add_entries g [] rs)

-- What the loop over the items carries: `generations`, `identities` and the transaction's tables.
pub record Progress : Type 0 where
  pub generations : Generations
  pub identities : List ChangeSetIdentity
  pub tables : Tables

item_queued : Progress → ChangeSetIdentity → Result Error ℕ × Tables → Result Error Progress
item_queued a i (err x, t) = err x
item_queued a i (ok n, t) = ok (record {
  generations = (i.device_id, n) ∷ a.generations;
  identities = a.identities ++ i ∷ [];
  tables = t;
})

-- One round of the loop.
unfoldable pub queue_item :
    Platform → ℕ → Text → Text → Text → QueueItem → Progress → Result Error Progress
unfolding item_queued
queue_item pf now schema site id item a = elim (parse_device_change_set pf item.change_set false) [
  | err x ↦ err x
  | ok i ↦ item_queued a i (
      queue_device_change_set_for_rollout pf now schema
        (record { site_id = site; role = item.device_role; rollout_id = id }) i.device_id
        item.change_set a.tables)
]

unfoldable pub queue_items :
    Platform → ℕ → Text → Text → Text → List QueueItem → Progress → Result Error Progress
queue_items pf now schema site id [] a = ok a
queue_items pf now schema site id (item ∷ items) a =
    elim (queue_item pf now schema site id item a) [
      | err x ↦ err x
      | ok a' ↦ queue_items pf now schema site id items a'
    ]

unfoldable pub enqueue_run : ℕ → List RunResult → RolloutRun → RolloutRun
enqueue_run now rs r = record r {
  status = queued;
  results = rs;
  claim_token = none;
  updated_at = now;
}

-- The two kinds of audit entries, by their action.
audits : List ChangeSetIdentity → List Text → List Text
audits is logs =
    map (λ i. codes "SITE_ORCHESTRATOR_CHANGESET_QUEUED") is
    ++ codes "SITE_ORCHESTRATOR_ROLLOUT_START" ∷ logs

-- From the new results on: the UPDATE of the run under its claim, the audit, and Commit.
unfoldable pub commit_queued :
    ℕ → Text → Text → Text → List RunResult → Progress → Result Error (Generations × Tables)
unfolding audits
commit_queued now site id token rs a =
    if not (count_rows (claimed_with_key id site token) a.tables.rollout_runs == 1)
    then err rollout_draft_not_available
    else ok (
      a.generations,
      record a.tables {
        rollout_runs =
            update_rows (claimed_with_key id site token) (enqueue_run now rs) a.tables.rollout_runs;
        audit_logs = audits a.identities a.tables.audit_logs;
      },
    )

queue_claimed :
    Platform
    → ℕ
    → Text
    → Text
    → Text
    → List QueueItem
    → List RunResult
    → Result Error RolloutDraftRecord × Tables
    → Result Error (Generations × Tables)
queue_claimed pf now schema site id items results (err x, t) = err x
queue_claimed pf now schema site id items results (ok r, t) = do
  a ←
      queue_items pf now schema site id items
        (record { generations = []; identities = []; tables = t })
  rs ← add_device_generations a.generations results
  commit_queued now site id r.claim_token rs a

abbrev no_items : List QueueItem → Bool
no_items [] = true
no_items (i ∷ is) = false

-- The transaction: its generations and the tables that it commits.
unfoldable pub claim_and_queue :
    Platform
    → ℕ
    → Text
    → Text
    → Text
    → Text
    → List QueueItem
    → List RunResult
    → Tables
    → Result Error (Generations × Tables)
unfolding queue_claimed
claim_and_queue pf now token schema site id items results t =
    if no_items items then err no_change_sets else elim (safe_schema_ident schema) [
      | err x ↦ err x
      | ok s ↦
          queue_claimed pf now schema site id items results
            (claim_rollout_draft_tx now token site id t)
    ]

-- Without Commit the deferred Rollback leaves the tables as they were.
abbrev committed_or :
    Tables → Result Error (Generations × Tables) → Result Error Generations × Tables
committed_or t (err x) = (err x, t)
committed_or t (ok (g, t')) = (ok g, t')

unfoldable pub claim_and_queue_device_change_sets :
    Platform
    → ℕ
    → Text
    → Text
    → Text
    → Text
    → List QueueItem
    → List RunResult
    → Tables
    → Result Error Generations × Tables
claim_and_queue_device_change_sets pf now token schema site id items results t =
    committed_or t (claim_and_queue pf now token schema site id items results t)

abbrev generation_of : Generations → Result Error ChangeSetIdentity → Result Error ℕ
generation_of g (err x) = err x
generation_of g (ok i) = elim (lookup i.device_id g) [ none ↦ ok 0 | some n ↦ ok n ]

-- The form with one change set.
unfoldable pub claim_and_queue_device_change_set :
    Platform
    → ℕ
    → Text
    → Text
    → Text
    → Text
    → Text
    → Option ChangeSetEnvelope
    → List RunResult
    → Tables
    → Result Error ℕ × Tables
claim_and_queue_device_change_set pf now token schema site id role e results t =
    let item : QueueItem = record { device_role = role; change_set = e } in
    let (r, t') =
      claim_and_queue_device_change_sets pf now token schema site id (item ∷ []) results t in
    (r >>= λ g. generation_of g (parse_device_change_set pf e false), t')
