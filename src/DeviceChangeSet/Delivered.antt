-- ===== src/DeviceChangeSet/Delivered.antt =====
-- A change set on its way through a device: queued, reported APPLYING, reported COMMITTED
-- (internal/database/device_change_sets.go).
use openwrt_controller.DeviceChangeSet.KeyedRow.{IsRow, has_device_id, accepts-id, queued, applied}
use openwrt_controller.Base.{
  ℕ, suc, ◌≤◌, ◌<◌, ◌≡◌, refl, ◌∙◌, arith, true, none, some, Text, text_eq, text_eq_refl, pos,
  Result, ok, select_row,
}
use openwrt_controller.Schema.{
  Error, Platform, State, applying, committed, ChangeSetEnvelope, Device, Tables, state_eq,
}
use openwrt_controller.ChangeSet.{ChangeSetIdentity, identity_of}
use openwrt_controller.DeviceChangeSet.Queue.{Owner, accepts, queue_row, queue, bigint_max}
use openwrt_controller.DeviceChangeSet.Status.{
  is_terminal, transition_allowed, status_transition, pending_match, status_row, matches,
  apply_status,
}

-- The device's report of a state, for the change set at a generation.
pub record IsReport (e : ChangeSetEnvelope) (g : ℕ) (s : State) (r : ChangeSetEnvelope)
    : Type 0 where
  pub same_id : r.change_set_id ≡ e.change_set_id
  pub same_hash : r.plan_hash ≡ e.plan_hash
  pub at_generation : r.generation ≡ some (pos g)
  pub in_state : r.state ≡ s

applying_matches :
    (pf : Platform) (now : ℕ) (o : Owner) (device_id : Text) (e r : ChangeSetEnvelope) (t : Tables)
    (d : Device)
    → e.generation ≡ none
    → e.device_id ≡ device_id
    → accepts pf now o device_id (identity_of e) t.rollout_runs d ≡ true
    → IsReport e (suc d.desired_generation) applying r
    → matches (identity_of r) device_id r.state (queue_row now e (identity_of e) d) ≡ true
unfolding accepts queue_row pending_match status_transition
applying_matches pf now o device_id e r t d g same a k = ground (
  arith,
  k.same_id,
  k.same_hash,
  k.at_generation,
  k.in_state,
  text_eq_refl e.change_set_id,
  text_eq_refl e.plan_hash,
  text_eq_refl device_id,
)

committed_pending :
    (now later : ℕ) (device_id : Text) (e r c : ChangeSetEnvelope) (d : Device)
    → e.generation ≡ none
    → e.device_id ≡ device_id
    → d.pending_operation ≡ none
    → IsReport e (suc d.desired_generation) applying r
    → IsReport e (suc d.desired_generation) committed c
    → pending_match
        (identity_of c)
        device_id
        c.state
        (status_row later r (identity_of r) device_id (queue_row now e (identity_of e) d))
      ≡ true
unfolding queue_row status_row pending_match status_transition is_terminal transition_allowed
committed_pending now later device_id e r c d g same p k kc = ground (
  arith,
  kc.same_id,
  kc.same_hash,
  kc.at_generation,
  kc.in_state,
  k.in_state,
  text_eq_refl e.change_set_id,
  text_eq_refl e.plan_hash,
  text_eq_refl device_id,
)

abbrev reported_row : ℕ → ℕ → Text → ChangeSetEnvelope → ChangeSetEnvelope → Device → Device
reported_row now later device_id e r d =
    status_row later r (identity_of r) device_id (queue_row now e (identity_of e) d)

row_unchanged :
    (now later : ℕ) (device_id : Text) (e r : ChangeSetEnvelope) (d : Device)
    → e.generation ≡ none
    → ((reported_row now later device_id e r d).id ≡ d.id)
      × ((reported_row now later device_id e r d).desired_generation ≡ suc d.desired_generation)
unfolding queue_row status_row
row_unchanged now later device_id e r d g = (refl, ground (arith, g))

pending_matches :
    (i : ChangeSetIdentity) (device_id : Text) (s : State) (x : Device)
    → text_eq x.id device_id ≡ true
    → pending_match i device_id s x ≡ true
    → matches i device_id s x ≡ true
pending_matches i device_id s x h k = ground arith

-- A COMMITTED report that the pending change set matches ends it.
committed_row :
    (last : ℕ) (device_id : Text) (e c : ChangeSetEnvelope) (n : ℕ) (x : Device)
    → IsReport e n committed c
    → pending_match (identity_of c) device_id c.state x ≡ true
    → ((status_row last c (identity_of c) device_id x).pending_change_set ≡ none)
      × (n ≤ (status_row last c (identity_of c) device_id x).observed_generation)
      × (n ≤ (status_row last c (identity_of c) device_id x).last_successful_generation)
      × ((status_row last c (identity_of c) device_id x).last_change_set ≡ some c)
      × ((status_row last c (identity_of c) device_id x).desired_generation ≡ x.desired_generation)
unfolding status_row is_terminal state_eq
committed_row last device_id e c n x k m = ground (arith, k.in_state, k.at_generation, m)

-- The answers of the three calls, and the device's row after them.
pub record IsDelivered (device_id : Text) (g : ℕ) (c : ChangeSetEnvelope)
    (first : Result Error ℕ × Tables) (second third : Result Error Unit × Tables) : Type 0 where
  pub answer : first.0 ≡ ok g
  pub first_taken : second.0 ≡ ok tt
  pub second_taken : third.0 ≡ ok tt
  pub row : Device
  pub row_is : select_row (has_device_id device_id) third.1.devices ≡ some row
  pub nothing_pending : row.pending_change_set ≡ none
  pub last_is : row.last_change_set ≡ some c
  pub desired : row.desired_generation ≡ g
  pub observed : g ≤ row.observed_generation
  pub successful : g ≤ row.last_successful_generation

-- A change set without a generation that the row of its device accepts, below the largest BIGINT, is
-- queued with the next generation; the device's report APPLYING is taken and then its report
-- COMMITTED, both for that generation. After them nothing is pending, the last change set is the
-- committed report, and the observed and the last successful generation have reached the generation.
pub queued_change_set_commits :
    (pf : Platform) (now later last : ℕ) (o : Owner) (device_id : Text) (e r c : ChangeSetEnvelope)
    (t : Tables) (d : Device)
    → e.generation ≡ none
    → e.device_id ≡ device_id
    → d.desired_generation < bigint_max
    → IsRow device_id t.devices d
    → accepts pf now o device_id (identity_of e) t.rollout_runs d ≡ true
    → IsReport e (suc d.desired_generation) applying r
    → IsReport e (suc d.desired_generation) committed c
    → IsDelivered device_id
        (suc d.desired_generation)
        c
        (queue pf now o device_id e (identity_of e) t)
        (apply_status later r
          (identity_of r)
          device_id
          (queue pf now o device_id e (identity_of e) t).1)
        (apply_status last c
          (identity_of c)
          device_id
          (apply_status later r
            (identity_of r)
            device_id
            (queue pf now o device_id e (identity_of e) t).1).1)
queued_change_set_commits pf now later last o device_id e r c t d g same b row a kr kc =
    let (q, row1) = queued pf now o device_id e t d g b row a in
    let (x, row2) =
      applied later device_id r (queue pf now o device_id e (identity_of e) t).1
        (queue_row now e (identity_of e) d) row1
        (applying_matches pf now o device_id e r t d g same a kr) in
    let same_row = row_unchanged now later device_id e r d g in
    let free : d.pending_operation ≡ none = unfold accepts in ground arith in
    let here : text_eq d.id device_id ≡ true =
      accepts-id pf now o device_id (identity_of e) t d a in
    let pending = committed_pending now later device_id e r c d g same free kr kc in
    let (y, row3) =
      applied last device_id c
        (apply_status later r (identity_of r) device_id
          (queue pf now o device_id e (identity_of e) t).1).1
        (reported_row now later device_id e r d) row2
        (pending_matches (identity_of c) device_id c.state (reported_row now later device_id e r d)
          (rw (same_row.0) here) pending) in
    let (nothing, seen, succeeded, stored, kept) =
      committed_row last device_id e c (suc d.desired_generation)
        (reported_row now later device_id e r d) kc pending in
    record {
      answer = q;
      first_taken = x;
      second_taken = y;
      row = status_row last c (identity_of c) device_id (reported_row now later device_id e r d);
      row_is = row3.row;
      nothing_pending = nothing;
      last_is = stored;
      desired = kept ∙ same_row.1;
      observed = seen;
      successful = succeeded;
    }
