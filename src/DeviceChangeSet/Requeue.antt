-- ===== src/DeviceChangeSet/Requeue.antt =====
-- A change set that is queued again (queueDeviceChangeSet of internal/database/device_change_sets.go).
use openwrt_controller.Base.{
  ℕ, ◌+◌, ◌≤◌, ◌≡◌, refl, Bool, true, false, Option, none, some, Text, ok, arith, text_eq,
  text_eq_refl, Bool-cases, inl, inr, update_rows, select_row, count_rows, select_row-holds,
  select_row-update_rows, ◌∙◌, select_row-none_by_key, count_rows-update_rows, All-select,
  Option-cases, All, List,
}
use openwrt_controller.Schema.{Platform, ChangeSetEnvelope, Device, RolloutRun, Tables}
use openwrt_controller.ChangeSet.{ChangeSetIdentity, parse_device_change_set}
use openwrt_controller.ChangeSet.Laws.{parse-positive, parse-unset, parse-set_generation}
use openwrt_controller.DeviceChangeSet.Queue.{Owner, no_owner, accepts, queue_row, explain, queue}

-- The site column holds a value.
abbrev pub HasSite : Device → Type 0
HasSite d = (site : Text) × (d.site_id ≡ some site)

-- What `queue` does on each side of its UPDATE.
module _ (pf : Platform) (now : ℕ) (o : Owner) (device_id : Text) (e : ChangeSetEnvelope)
    (i : ChangeSetIdentity) (t after : Tables) (g : ℕ)
    (answers : queue pf now o device_id e i t ≡ (ok g, after)) where
  queue-fresh :
      (d : Device)
      → select_row (accepts pf now o device_id i t.rollout_runs) t.devices ≡ some d
      → (g ≡ (queue_row now e i d).desired_generation)
        × (after ≡ record t {
          devices =
              update_rows
                (accepts pf now o device_id i t.rollout_runs)
                (queue_row now e i)
                t.devices;
        })
  unfolding queue
  queue-fresh d row = ground (arith, row)

  queue-answered :
      select_row (accepts pf now o device_id i t.rollout_runs) t.devices ≡ none
      → (explain pf o i (select_row (λ d. text_eq d.id device_id) t.devices) ≡ ok g) × (after ≡ t)
  unfolding queue
  queue-answered unmatched = ground (arith, unmatched)

module _ (pf : Platform) (device_id : Text) (e : ChangeSetEnvelope) (i : ChangeSetIdentity) where
  -- What the row that took the change set answers to the same change set.
  explain-queue_row :
      (now : ℕ) (o : Owner) (runs : List RolloutRun) (d : Device) (site : Text)
      → parse_device_change_set pf (some e) false ≡ ok i
      → accepts pf now o device_id i runs d ≡ true
      → d.site_id ≡ some site
      → explain pf no_owner i (some (queue_row now e i d))
        ≡ ok (queue_row now e i d).desired_generation
  unfolding accepts explain queue_row
  explain-queue_row now o runs d site parsed a here = elim (Bool-cases i.has_gen) [
    | inl set ↦ ground (
      arith,
      set,
      here,
      parsed,
      parse-positive pf e i parsed set,
      text_eq_refl i.id,
      text_eq_refl i.plan_hash,
    )
    | inr unset ↦ ground (
      arith,
      unset,
      here,
      parsed,
      parse-unset pf e i parsed unset,
      parse-set_generation pf e i (d.desired_generation + 1) (omega arith) parsed,
      text_eq_refl i.id,
      text_eq_refl i.plan_hash,
    )
  ]

  row_is_busy :
      (now now' : ℕ) (d : Device) (runs : List RolloutRun)
      → accepts pf now' no_owner device_id i runs (queue_row now e i d) ≡ false
  unfolding accepts queue_row
  row_is_busy now now' d runs = ground arith

  -- A diagnosis that answers with a generation answers so for any owner, and only of a busy row.
  explain-no_owner :
      (o : Owner) (d : Device) (g : ℕ)
      → explain pf o i (some d) ≡ ok g
      → explain pf no_owner i (some d) ≡ ok g
  unfolding explain
  explain-no_owner o d g h = ground arith

  explained_is_busy :
      (now : ℕ) (o o' : Owner) (runs : List RolloutRun) (d : Device) (g : ℕ)
      → explain pf o i (some d) ≡ ok g
      → accepts pf now o' device_id i runs d ≡ false
  unfolding explain accepts parse_device_change_set
  explained_is_busy now o o' runs d g h = ground arith

  accepts-id :
      (now : ℕ) (o : Owner) (runs : List RolloutRun) (d : Device)
      → accepts pf now o device_id i runs d ≡ true
      → text_eq d.id device_id ≡ true
  unfolding accepts
  accepts-id now o runs d a = ground arith

  queue_row-id :
      (now : ℕ) (d : Device) → text_eq (queue_row now e i d).id device_id ≡ text_eq d.id device_id
  unfolding queue_row
  queue_row-id now d = refl

  abbrev is_row : Device → Bool
  is_row r = text_eq r.id device_id

  -- The second call finds the row `d` of the key, which does not accept and answers g.
  answered_again :
      (now : ℕ) (t : Tables) (d : Device) (g : ℕ)
      → count_rows is_row t.devices ≤ 1
      → select_row is_row t.devices ≡ some d
      → accepts pf now no_owner device_id i t.rollout_runs d ≡ false
      → explain pf no_owner i (some d) ≡ ok g
      → queue pf now no_owner device_id e i t ≡ (ok g, t)
  unfolding queue
  answered_again now t d g key row busy says =
      rw
        (
          select_row-none_by_key is_row (accepts pf now no_owner device_id i t.rollout_runs)
              t.devices d (λ y a. accepts-id now no_owner t.rollout_runs y a) key row busy,
          queue,
        )
        (rw row (rw says))

  requeued_row :
      (now now' : ℕ) (o : Owner) (t : Tables) (d : Device) (site : Text)
      → parse_device_change_set pf (some e) false ≡ ok i
      → count_rows is_row t.devices ≤ 1
      → select_row (accepts pf now o device_id i t.rollout_runs) t.devices ≡ some d
      → d.site_id ≡ some site
      → let after = record t {
        devices =
            update_rows (accepts pf now o device_id i t.rollout_runs) (queue_row now e i) t.devices;
      } in
        queue pf now' no_owner device_id e i after
        ≡ (ok (queue_row now e i d).desired_generation, after)
  requeued_row now now' o t d site parsed key row here =
      let p = accepts pf now o device_id i t.rollout_runs in
      let f = queue_row now e i in
      answered_again now' (record t { devices = update_rows p f t.devices }) (f d)
        (queue_row now e i d).desired_generation
        (rw (count_rows-update_rows is_row p f t.devices (queue_row-id now)) key)
        (select_row-update_rows p is_row f t.devices d (accepts-id now o t.rollout_runs)
          (λ y a. queue_row-id now y ∙ accepts-id now o t.rollout_runs y a) key row)
        (row_is_busy now now' d t.rollout_runs)
        (explain-queue_row now o t.rollout_runs d site parsed (select_row-holds p t.devices d row)
          here)

-- A change set whose queuing answered with a generation, for an owner or not, is answered with the
-- same generation when it is queued again, at any time, and the second call changes no table: the
-- device's id being the key of the table, and no device's site NULL.
pub requeue_is_idempotent :
    (pf : Platform) (now now' : ℕ) (o : Owner) (device_id : Text) (e : ChangeSetEnvelope)
    (i : ChangeSetIdentity) (t after : Tables) (g : ℕ)
    → parse_device_change_set pf (some e) false ≡ ok i
    → count_rows (λ r. text_eq r.id device_id) t.devices ≤ 1
    → All HasSite t.devices
    → queue pf now o device_id e i t ≡ (ok g, after)
    → queue pf now' no_owner device_id e i after ≡ (ok g, after)
requeue_is_idempotent pf now now' o device_id e i t after g parsed key sites h =
    elim (Option-cases (select_row (accepts pf now o device_id i t.rollout_runs) t.devices)) [
      | inr (d, row) ↦ fresh d row (All-select HasSite _ t.devices d row sites)
      | inl unmatched ↦ answered unmatched
    ]
  where
    by_id : Option Device
    by_id = select_row (λ r. text_eq r.id device_id) t.devices

    fresh :
        (d : Device)
        → select_row (accepts pf now o device_id i t.rollout_runs) t.devices ≡ some d
        → HasSite d
        → queue pf now' no_owner device_id e i after ≡ (ok g, after)
    fresh d row (site, here) =
        let (same_g, same_after) = queue-fresh pf now o device_id e i t after g h d row in
        cc (
          same_g,
          same_after,
          requeued_row pf device_id e i now now' o t d site parsed key row here,
        )

    answered :
        select_row (accepts pf now o device_id i t.rollout_runs) t.devices ≡ none
        → queue pf now' no_owner device_id e i after ≡ (ok g, after)
    answered unmatched =
        let (says, same) = queue-answered pf now o device_id e i t after g h unmatched in
        rw same (found by_id refl says)
      where
        found :
            (r : Option Device)
            → by_id ≡ r
            → explain pf o i by_id ≡ ok g
            → queue pf now' no_owner device_id e i t ≡ (ok g, t)
        found none row says = absurd (unfold explain in ground (arith, row))
        found (some d) row says =
            let says' : explain pf o i (some d) ≡ ok g = (rw row at says) in
            answered_again pf device_id e i now' t d g key row
              (explained_is_busy pf device_id e i now' o no_owner t.rollout_runs d g says')
              (explain-no_owner pf device_id e i o d g says')
