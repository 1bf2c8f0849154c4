-- ===== src/DeviceChangeSet/KeyedRow.antt =====
-- What queueDeviceChangeSet and RecordDeviceChangeSetStatus (internal/database/device_change_sets.go)
-- do to the row of one device.
use openwrt_controller.Base.{
  ℕ, suc, ◌≤◌, ◌<◌, ◌≡◌, refl, sym, subst, arith, Bool, true, List, [], ◌∷◌, none, some, Text,
  text_eq, ok, Bool-cases, inl, inr, update_rows, count_rows, select_row, select_row-count,
  select_row-update_rows, count_rows-update_rows, count_rows_mono,
}
use openwrt_controller.Schema.{Platform, State, ChangeSetEnvelope, Device, Tables}
use openwrt_controller.ChangeSet.{ChangeSetIdentity, identity_of}
use openwrt_controller.DeviceChangeSet.Queue.{Owner, accepts, queue_row, queue, bigint_max}
use openwrt_controller.DeviceChangeSet.Status.{
  is_terminal, status_row, settle, matches, apply_status,
}

abbrev pub has_device_id : Text → Device → Bool
has_device_id device_id d = text_eq d.id device_id

-- The only row of the id.
pub record IsRow (device_id : Text) (ds : List Device) (d : Device) : Type 0 where
  pub key : count_rows (has_device_id device_id) ds ≤ 1
  pub row : select_row (has_device_id device_id) ds ≡ some d

-- A condition that holds of the only row of a key, and only of it, selects it.
select_row-of_key :
    (p q : Device → Bool) (xs : List Device) (x : Device)
    → ((y : Device) → p y ≡ true → q y ≡ true)
    → count_rows q xs ≤ 1
    → select_row q xs ≡ some x
    → p x ≡ true
    → select_row p xs ≡ some x
unfolding select_row count_rows
select_row-of_key p q [] x pq c s h = ground arith
select_row-of_key p q (y ∷ ys) x pq c s h = elim (Bool-cases (q y)) [
  | inl t ↦
      let e : y ≡ x = ground (arith, t) in
      let here : p y ≡ true = subst (λ z. p z ≡ true) (sym e) h in ground (arith, here, e)
  | inr n ↦ elim (Bool-cases (p y)) [
    | inl b ↦ absurd (ground (arith, n, pq y b))
    | inr m ↦ rw m (select_row-of_key p q ys x pq (ground (arith, n)) (rw n at s) h)
  ]
]

-- An UPDATE of the row of an id, under a condition that the row meets.
update-IsRow :
    (device_id : Text) (p : Device → Bool) (f : Device → Device) (ds : List Device) (d : Device)
    → ((y : Device) → p y ≡ true → text_eq y.id device_id ≡ true)
    → ((y : Device) → (f y).id ≡ y.id)
    → IsRow device_id ds d
    → p d ≡ true
    → IsRow device_id (update_rows p f ds) (f d)
update-IsRow device_id p f ds d only same r h = record {
  key = rw (count_rows-update_rows (has_device_id device_id) p f ds (λ y. rw (same y))) r.key;
  row =
      select_row-update_rows p (has_device_id device_id) f ds d only (λ y k. rw (same y) (only y k))
        r.key (select_row-of_key p (has_device_id device_id) ds d only r.key r.row h);
}

pub accepts-id :
    (pf : Platform) (now : ℕ) (o : Owner) (device_id : Text) (i : ChangeSetIdentity) (t : Tables)
    (y : Device)
    → accepts pf now o device_id i t.rollout_runs y ≡ true
    → text_eq y.id device_id ≡ true
unfolding accepts
accepts-id pf now o device_id i t y h = ground arith

pub queued :
    (pf : Platform) (now : ℕ) (o : Owner) (device_id : Text) (e : ChangeSetEnvelope) (t : Tables)
    (d : Device)
    → e.generation ≡ none
    → d.desired_generation < bigint_max
    → IsRow device_id t.devices d
    → accepts pf now o device_id (identity_of e) t.rollout_runs d ≡ true
    → ((queue pf now o device_id e (identity_of e) t).0 ≡ ok (suc d.desired_generation))
      × IsRow device_id
          (queue pf now o device_id e (identity_of e) t).1.devices
          (queue_row now e (identity_of e) d)
unfolding queue
queued pf now o device_id e t d g b r a =
    let only = accepts-id pf now o device_id (identity_of e) t in
    let found =
      select_row-of_key (accepts pf now o device_id (identity_of e) t.rollout_runs)
        (has_device_id device_id) t.devices d only r.key r.row a in
    let next =
      update-IsRow device_id (accepts pf now o device_id (identity_of e) t.rollout_runs)
        (queue_row now e (identity_of e)) t.devices d only (λ y. unfold queue_row in refl) r a in
    let answer : queue pf now o device_id e (identity_of e) t ≡ (
      ok (suc d.desired_generation),
      record t {
        devices =
            update_rows (accepts pf now o device_id (identity_of e) t.rollout_runs)
              (queue_row now e (identity_of e)) t.devices;
      },
    ) =
      unfold queue_row in ground (arith, found, g) in
    rw answer (refl, next)

matches-id :
    (i : ChangeSetIdentity) (device_id : Text) (s : State) (y : Device)
    → matches i device_id s y ≡ true
    → text_eq y.id device_id ≡ true
matches-id i device_id s y h = ground arith

pub applied :
    (now : ℕ) (device_id : Text) (e : ChangeSetEnvelope) (t : Tables) (d : Device)
    → IsRow device_id t.devices d
    → matches (identity_of e) device_id e.state d ≡ true
    → ((apply_status now e (identity_of e) device_id t).0 ≡ ok tt)
      × IsRow device_id
          (apply_status now e (identity_of e) device_id t).1.devices
          (status_row now e (identity_of e) device_id d)
unfolding apply_status settle
applied now device_id e t d r m =
    let only = matches-id (identity_of e) device_id e.state in
    let found =
      select_row-of_key (matches (identity_of e) device_id e.state) (has_device_id device_id)
        t.devices d only r.key r.row m in
    let one : count_rows (matches (identity_of e) device_id e.state) t.devices ≡ 1 = omega (
      arith,
      select_row-count (matches (identity_of e) device_id e.state) t.devices d found,
      count_rows_mono (matches (identity_of e) device_id e.state) (has_device_id device_id)
          t.devices only,
      r.key,
    ) in
    let next =
      update-IsRow device_id (matches (identity_of e) device_id e.state)
        (status_row now e (identity_of e) device_id) t.devices d only
        (λ y. unfold status_row in refl) r m in
    rw one (elim (Bool-cases (is_terminal e.state)) [
      | inl k ↦ rw k (refl, next)
      | inr k ↦ rw k (refl, next)
    ])
