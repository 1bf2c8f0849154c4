-- ===== src/ChangeSet/Laws.antt =====
-- Lemmas on parseDeviceChangeSet (internal/database/device_change_sets.go) where it accepts.
use openwrt_controller.Base.{ℕ, zero, suc, ◌<◌, ◌≡◌, Bool, true, false, some, pos, ok, arith}
use openwrt_controller.Schema.{Platform, ChangeSetEnvelope}
use openwrt_controller.ChangeSet.{
  ChangeSetIdentity, parse_device_change_set, identity_of, device_change_set_plan_hash,
  valid_device_change_set_state,
}

module _ (pf : Platform) (e : ChangeSetEnvelope) (i : ChangeSetIdentity) where
  -- The identity of an accepted document is made of its fields.
  pub parse-identity :
      (status : Bool) → parse_device_change_set pf (some e) status ≡ ok i → i ≡ identity_of e
  unfolding parse_device_change_set
  parse-identity status h = ground arith

  pub parse-positive :
      parse_device_change_set pf (some e) false ≡ ok i → i.has_gen ≡ true → 0 < i.generation
  unfolding parse_device_change_set
  parse-positive h g = ground arith

  pub parse-unset :
      parse_device_change_set pf (some e) false ≡ ok i → i.has_gen ≡ false → i.generation ≡ 0
  unfolding parse_device_change_set
  parse-unset h g = ground arith

  pub parse_status-positive : parse_device_change_set pf (some e) true ≡ ok i → 0 < i.generation
  unfolding parse_device_change_set
  parse_status-positive h = ground arith

  pub parse_status-state :
      parse_device_change_set pf (some e) true ≡ ok i → valid_device_change_set_state e.state ≡ true
  unfolding parse_device_change_set
  parse_status-state h = ground arith

  -- The generation is no part of what the plan hash covers, so a document with its generation
  -- written in is accepted as before.
  pub parse-set_generation :
      (n : ℕ)
      → 0 < n
      → parse_device_change_set pf (some e) false ≡ ok i
      → parse_device_change_set pf (some (record e { generation = some (pos n) })) false
        ≡ ok (record i { generation = n; has_gen = true })
  unfolding parse_device_change_set device_change_set_plan_hash
  parse-set_generation zero p h = absurd (omega arith)
  parse-set_generation (suc n) p h = ground arith
