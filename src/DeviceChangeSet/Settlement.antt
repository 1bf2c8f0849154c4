-- ===== src/DeviceChangeSet/Settlement.antt =====
-- A terminal report and the rollouts (RecordDeviceChangeSetStatus of
-- internal/database/device_change_sets.go).
use openwrt_controller.Base.{
  ℕ, ◌≡◌, ◌↔◌, ◌⊎◌, text_eq, refl, true, false, not, ◌&&◌, Option, none, some, List, [], ◌∷◌, Text,
  All, any, Result, ok, err, arith, Bool-cases, inl, inr, update_rows, update_rows_none_of,
}
use openwrt_controller.Schema.{
  Error, Platform, committed, state_eq, state_eq_iff, ChangeSetEnvelope, Device, completed,
  RunResult, RolloutRun, Tables, is_queued,
}
use openwrt_controller.ChangeSet.{ChangeSetIdentity, parse_device_change_set}
use openwrt_controller.DeviceChangeSet.Status.{
  is_terminal, other_entry, differs, settled_status, settle_run, settles, settle, apply_status,
  matches, status_row, record_parsed, record_device_change_set_status,
}

-- An entry that names another device, or another change set.
abbrev NamesAnother : ChangeSetIdentity → Text → RunResult → Type 0
NamesAnother i device_id r =
    ((k : Text) × (r.device_id ≡ some k) × (text_eq k device_id ≡ false))
    ⊎ ((k : Text) × (r.change_set_id ≡ some k) × (text_eq k i.id ≡ false))

-- Every entry that names another device or another change set is COMMITTED.
abbrev OthersCommitted : ChangeSetIdentity → Text → List RunResult → Type 0
OthersCommitted i device_id rs =
    All (λ r. NamesAnother i device_id r → r.change_set_state ≡ committed) rs

differs-named :
    (o : Option Text) (s : Text)
    → differs o s ≡ true
    → (k : Text) × (o ≡ some k) × (text_eq k s ≡ false)
differs-named none s h = absurd (ground arith)
differs-named (some k) s h = (k, refl, ground arith)

other_entry-names :
    (i : ChangeSetIdentity) (device_id : Text) (r : RunResult)
    → other_entry i device_id r ≡ true
    → NamesAnother i device_id r
unfolding other_entry
other_entry-names i device_id r h = elim (Bool-cases (differs r.device_id device_id)) [
  | inl d ↦ inl (differs-named r.device_id device_id d)
  | inr n ↦ inr (differs-named r.change_set_id i.id (ground (arith, n)))
]

names-other_entry :
    (i : ChangeSetIdentity) (device_id : Text) (r : RunResult)
    → NamesAnother i device_id r
    → other_entry i device_id r ≡ true
unfolding other_entry
names-other_entry i device_id r (inl (k, e, n)) = rw e (rw n refl)
names-other_entry i device_id r (inr (k, e, n)) = ground (arith, e, n)

any_uncommitted :
    (i : ChangeSetIdentity) (device_id : Text) (rs : List RunResult)
    → any (λ r. other_entry i device_id r && not (state_eq r.change_set_state committed)) rs ≡ false
    → OthersCommitted i device_id rs
any_uncommitted i device_id [] h = tt
any_uncommitted i device_id (r ∷ rs) h = (
  λ o. ground (arith, names-other_entry i device_id r o, state_eq_iff r.change_set_state committed),
  any_uncommitted i device_id rs (ground arith),
)

none_uncommitted :
    (i : ChangeSetIdentity) (device_id : Text) (rs : List RunResult)
    → OthersCommitted i device_id rs
    → any (λ r. other_entry i device_id r && not (state_eq r.change_set_state committed)) rs ≡ false
none_uncommitted i device_id [] a = refl
none_uncommitted i device_id (r ∷ rs) a = elim (Bool-cases (other_entry i device_id r)) [
  | inr n ↦ ground (arith, n, none_uncommitted i device_id rs a.1)
  | inl y ↦ ground (
    arith,
    y,
    a.0 (other_entry-names i device_id r y),
    state_eq_iff r.change_set_state committed,
    none_uncommitted i device_id rs a.1,
  )
]

none_pending :
    (i : ChangeSetIdentity) (device_id : Text) (rs : List RunResult)
    → OthersCommitted i device_id rs
    → any (λ r. other_entry i device_id r && not (is_terminal r.change_set_state)) rs ≡ false
unfolding is_terminal
none_pending i device_id [] a = refl
none_pending i device_id (r ∷ rs) a = elim (Bool-cases (other_entry i device_id r)) [
  | inr n ↦ ground (arith, n, none_pending i device_id rs a.1)
  | inl y ↦
      ground (arith, y, a.0 (other_entry-names i device_id r y), none_pending i device_id rs a.1)
]

-- The new status of a rollout is completed exactly when the report says COMMITTED and every entry of
-- its results that names another device, or another change set, is COMMITTED already. An entry that
-- names neither, for want of a key, does not count.
settled_status-completed :
    (e : ChangeSetEnvelope) (i : ChangeSetIdentity) (device_id : Text) (rs : List RunResult)
    → (settled_status e i device_id rs ≡ completed)
      ↔ ((e.state ≡ committed) × OthersCommitted i device_id rs)
unfolding settled_status
settled_status-completed e i device_id rs = (forth, back)
  where
    forth :
        settled_status e i device_id rs ≡ completed
        → (e.state ≡ committed) × OthersCommitted i device_id rs
    forth h = (
      ground (arith, state_eq_iff e.state committed),
      any_uncommitted i device_id rs (ground arith),
    )

    back :
        (e.state ≡ committed) × OthersCommitted i device_id rs
        → settled_status e i device_id rs ≡ completed
    back (c, a) = ground (
      arith,
      state_eq_iff e.state committed,
      none_pending i device_id rs a,
      none_uncommitted i device_id rs a,
    )

none_settle :
    (i : ChangeSetIdentity) (device_id : Text) (ds : List Device) (runs : List RolloutRun)
    → All (λ r. is_queued r.status ≡ false) runs
    → All (λ r. settles i device_id ds r ≡ false) runs
unfolding settles
none_settle i device_id ds [] a = tt
none_settle i device_id ds (r ∷ rs) a = (rw a.0, none_settle i device_id ds rs a.1)

settle_keeps_runs :
    (now : ℕ) (e : ChangeSetEnvelope) (i : ChangeSetIdentity) (device_id : Text) (t : Tables)
    → All (λ r. is_queued r.status ≡ false) t.rollout_runs
    → (settle now e i device_id t).rollout_runs ≡ t.rollout_runs
unfolding settle
settle_keeps_runs now e i device_id t a = ground (
  arith,
  update_rows_none_of (settles i device_id t.devices) (settle_run now e i device_id) t.rollout_runs
      (none_settle i device_id t.devices t.rollout_runs a),
)

apply_keeps_runs :
    (now : ℕ) (e : ChangeSetEnvelope) (i : ChangeSetIdentity) (device_id : Text) (t : Tables)
    → All (λ r. is_queued r.status ≡ false) t.rollout_runs
    → (apply_status now e i device_id t).1.rollout_runs ≡ t.rollout_runs
unfolding apply_status
apply_keeps_runs now e i device_id t a =
    let t' = record t {
      devices = update_rows (matches i device_id e.state) (status_row now e i device_id) t.devices;
    } in
    ground (arith, settle_keeps_runs now e i device_id t' a)

record_parsed_keeps_runs :
    (pf : Platform) (now : ℕ) (device_id : Text) (raw : Option ChangeSetEnvelope)
    (r : Result Error ChangeSetIdentity) (t : Tables)
    → All (λ r. is_queued r.status ≡ false) t.rollout_runs
    → (record_parsed pf now device_id raw r t).1.rollout_runs ≡ t.rollout_runs
unfolding record_parsed
record_parsed_keeps_runs pf now device_id raw (err x) t a = refl
record_parsed_keeps_runs pf now device_id none (ok i) t a = refl
record_parsed_keeps_runs pf now device_id (some e) (ok i) t a =
    ground (arith, apply_keeps_runs now e i device_id t a)

-- Where no rollout is QUEUED, a report changes no rollout: in particular, the report of a device
-- that a rollout in RUNNING waits for is not entered in its results.
pub report_without_queued_run :
    (pf : Platform) (now : ℕ) (schema device_id : Text) (raw : Option ChangeSetEnvelope)
    (t : Tables)
    → All (λ r. is_queued r.status ≡ false) t.rollout_runs
    → (record_device_change_set_status pf now schema device_id raw t).1.rollout_runs
      ≡ t.rollout_runs
unfolding record_device_change_set_status
report_without_queued_run pf now schema device_id raw t a =
    ground (
      arith,
      record_parsed_keeps_runs pf now device_id raw (parse_device_change_set pf raw true) t a,
    )
