-- ===== src/DeviceChangeSet/Lifecycle.antt =====
-- The states that RecordDeviceChangeSetStatus (internal/database/device_change_sets.go) moves a
-- change set through.
use openwrt_controller.Base.{
  ℕ, ◌≡◌, ◌≢◌, inl, inr, refl, sym, true, false, some, List, [], ◌∷◌, Text, All, Result, ok, err,
  arith, text_eq, text_eq_iff, Bool-cases, update_rows_none_of, count_rows_none_of,
}
use openwrt_controller.Schema.{
  Error, device_change_set_status_not_applied, Platform, State, ChangeSetEnvelope, Device, Tables,
}
use openwrt_controller.Identity.{safe_schema_ident}
use openwrt_controller.ChangeSet.{ChangeSetIdentity, parse_device_change_set, identity_of}
use openwrt_controller.ChangeSet.Laws.{parse-identity}
use openwrt_controller.DeviceChangeSet.Status.{
  is_terminal, transition_allowed, status_transition, pending_match, last_match, matches,
  apply_status, record_parsed, record_device_change_set_status,
}

-- One report after another of one change set.
pub data PathOf : State → State → Type 0 where
  here : {s : State} → PathOf s s
  next : {s t u : State} → PathOf s t → transition_allowed u t ≡ true → PathOf s u

transition_terminal :
    (new old : State) → is_terminal old ≡ true → transition_allowed new old ≡ true → new ≡ old
unfolding is_terminal transition_allowed
transition_terminal new old t h = ground arith

-- A change set that a path leaves settled stays as it is settled.
pub PathOf-terminal : {s u : State} → is_terminal s ≡ true → PathOf s u → u ≡ s
PathOf-terminal t here = refl
PathOf-terminal {s} t (next {t = m} p a) =
    let e : m ≡ s = PathOf-terminal t p in cc (e, transition_terminal _ m (cc (t, e)) a)

-- The change set that the device recorded last is this one, settled in another state.
abbrev pub IsClosedTo : ChangeSetEnvelope → Text → Device → Type 0
IsClosedTo e device_id d =
    text_eq d.id device_id ≡ true
    → (l : ChangeSetEnvelope) × (d.last_change_set ≡ some l)
      × (l.change_set_id ≡ e.change_set_id)
      × (is_terminal l.state ≡ true)
      × (l.state ≢ e.state)

closed_transition :
    (e l : ChangeSetEnvelope)
    → l.change_set_id ≡ e.change_set_id
    → is_terminal l.state ≡ true
    → l.state ≢ e.state
    → status_transition (identity_of e) e.state (some l) ≡ false
unfolding status_transition
closed_transition e l same t ne = elim (Bool-cases (transition_allowed e.state l.state)) [
  | inl a ↦ absurd (ne (sym (transition_terminal e.state l.state t a)))
  | inr n ↦ ground (arith, text_eq_iff l.change_set_id e.change_set_id)
]

closed_no_match :
    (e : ChangeSetEnvelope) (device_id : Text) (d : Device)
    → IsClosedTo e device_id d
    → matches (identity_of e) device_id e.state d ≡ false
unfolding pending_match last_match
closed_no_match e device_id d c = elim (Bool-cases (text_eq d.id device_id)) [
  | inr n ↦ rw n
  | inl y ↦
      let (l, stored, same, t, ne) = c y in ground (arith, stored, closed_transition e l same t ne)
]

closed-All :
    (e : ChangeSetEnvelope) (device_id : Text) (ds : List Device)
    → All (IsClosedTo e device_id) ds
    → All (λ d. matches (identity_of e) device_id e.state d ≡ false) ds
closed-All e device_id [] a = tt
closed-All e device_id (d ∷ ds) a =
    (closed_no_match e device_id d a.0, closed-All e device_id ds a.1)

apply_closed :
    (now : ℕ) (e : ChangeSetEnvelope) (device_id : Text) (t : Tables)
    → All (IsClosedTo e device_id) t.devices
    → apply_status now e (identity_of e) device_id t ≡ (err device_change_set_status_not_applied, t)
unfolding apply_status
apply_closed now e device_id t a =
    let none_match = closed-All e device_id t.devices a in
    rw (count_rows_none_of (matches (identity_of e) device_id e.state) t.devices none_match)
      (rw (update_rows_none_of (matches (identity_of e) device_id e.state) _ t.devices none_match))

record_closed :
    (pf : Platform) (now : ℕ) (device_id : Text) (e : ChangeSetEnvelope) (t : Tables)
    (r : Result Error ChangeSetIdentity)
    → parse_device_change_set pf (some e) true ≡ r
    → All (IsClosedTo e device_id) t.devices
    → record_parsed pf now device_id (some e) r t ≡ (err device_change_set_status_not_applied, t)
unfolding record_parsed
record_closed pf now device_id e t (err x) h a = refl
record_closed pf now device_id e t (ok i) h a =
    ground (arith, parse-identity pf e i true h, apply_closed now e device_id t a)

-- Where the change set that a device recorded last is the reported one, and was settled as COMMITTED,
-- RESTORED, RECOVERY_REQUIRED or REJECTED, a report of another state for it is refused, and no table
-- changes. This is for a valid schema name, and for as long as the device has recorded no other change
-- set since.
pub settled_state_is_final :
    (pf : Platform) (now : ℕ) (schema device_id : Text) (e : ChangeSetEnvelope) (t : Tables)
    → safe_schema_ident schema ≡ ok schema
    → All (IsClosedTo e device_id) t.devices
    → record_device_change_set_status pf now schema device_id (some e) t
      ≡ (err device_change_set_status_not_applied, t)
unfolding record_device_change_set_status
settled_state_is_final pf now schema device_id e t valid a =
    rw (valid, record_device_change_set_status)
      (record_closed pf now device_id e t (parse_device_change_set pf (some e) true) refl a)
