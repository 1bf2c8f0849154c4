-- ===== src/FleetPlan/Sets.antt =====
-- The change sets of a fleet (internal/api/handlers/site_orchestrator.go).
use openwrt_controller.Base.{
  ℕ, suc, Bool, true, not, ◌||◌, List, [], ◌∷◌, All, some, Text, codes, any, is_nil, length,
  text_eq, Result, ok, err, ◌>>◌, >>=_ok, fail_if, fail_if-ok, ok_injective, ◌≡◌, refl, arith, ap,
  sym, ◌∙◌, subst, inl, inr, Bool-cases,
}
use openwrt_controller.Schema.{Platform, Command, ChangeOperation}
use openwrt_controller.RolloutWorker.Phase.{
  RolloutDevice, RolloutPlan, PhaseOperation, device_operations,
}
use openwrt_controller.RolloutWorker.Grouping.{
  count_commands, count_in, device_operations-IsPhaseOf, device_operations-order, IsGrouped,
  KeepsOrder,
}
use openwrt_controller.ChangePlan.{PlanError, DeviceChangeSet, validate_device_change_set}
use openwrt_controller.ChangePlan.Rollout.{
  Seeds, with_ids, unhashed, with_hash, if_valid, identity_seed, stable_change_set_id,
  new_device_change_set_for_rollout_operations,
}
use openwrt_controller.FleetPlan.{
  namespace_not_selected, no_typed_commands, requested_change_set_namespaces, all_selected,
  device_change_operations, as_not_built, build_device_change_set, count_in_operations,
  change_set_command_count, build_change_sets, build_fleet_device_change_sets,
}
use openwrt_controller.FleetPlan.Operations.{made, phase_of, phases_of, handler_and_worker_agree}

count_all : (cs : List Command) → count_commands (λ c. true) cs ≡ length cs
unfolding count_commands
count_all [] = refl
count_all (c ∷ cs) = ap suc (count_all cs)

count_in_phases :
    (os : List ChangeOperation) → count_in (λ c. true) (phases_of os) ≡ count_in_operations os
unfolding count_in count_in_operations
count_in_phases [] = refl
count_in_phases (o ∷ os) = rw (count_all o.commands) (rw (count_in_phases os) refl)

with_ids-phases :
    (s : Seeds) (seed : Text) (i : ℕ) (os : List ChangeOperation)
    → phases_of (with_ids s seed i os) ≡ phases_of os
unfolding with_ids
with_ids-phases s seed i [] = refl
with_ids-phases s seed i (o ∷ os) = ap (λ z. phase_of o ∷ z) (with_ids-phases s seed (suc i) os)

-- The operations that are made of a device are those that the worker makes of it.
device_change_operations-phases :
    (pf : Platform) (namespace : Text) (d : RolloutDevice) (os : List ChangeOperation)
    → device_change_operations pf namespace d ≡ ok os
    → device_operations pf namespace [] d ≡ some (phases_of os)
unfolding device_change_operations
device_change_operations-phases pf namespace d os h =
    let (ks, asked, h1) = >>=_ok (requested_change_set_namespaces pf namespace) _ os h in
    let (u, h2, _) =
      >>=_ok
        (fail_if (is_nil d.commands || is_nil ks) no_typed_commands
          >> fail_if (not (all_selected ks d.commands)) namespace_not_selected)
        _ os h1 in
    let (v, typed, _) =
      >>=_ok (fail_if (is_nil d.commands || is_nil ks) no_typed_commands) _ u h2 in
    let both = fail_if-ok (is_nil d.commands || is_nil ks) no_typed_commands v typed in
    sym (handler_and_worker_agree pf namespace ks d asked (ground (arith, both))) ∙ ap made h

-- The operations hold the commands of a device: each command as often as the device does, and each
-- operation has commands, those of its own namespace in the order of the device, and an observed state.
pub record IsWhole (d : RolloutDevice) (os : List PhaseOperation) : Type 0 where
  pub every_command : (q : Command → Bool) → count_in q os ≡ count_commands q d.commands
  pub grouped : All IsGrouped os
  pub in_order : All (KeepsOrder d.commands) os

device_change_operations-IsWhole :
    (pf : Platform) (namespace : Text) (d : RolloutDevice) (os : List ChangeOperation)
    → device_change_operations pf namespace d ≡ ok os
    → IsWhole d (phases_of os)
device_change_operations-IsWhole pf namespace d os h =
    let worker = device_change_operations-phases pf namespace d os h in
    let phase = device_operations-IsPhaseOf pf namespace [] d (phases_of os) worker in
    record {
      every_command = phase.every_command;
      grouped = phase.grouped;
      in_order = device_operations-order pf namespace [] d (phases_of os) worker;
    }

-- The count that change_set_command_count makes is that of the device.
whole-count :
    (d : RolloutDevice) (os : List ChangeOperation)
    → IsWhole d (phases_of os)
    → count_in_operations os ≡ length d.commands
whole-count d os w = sym (count_in_phases os) ∙ (w.every_command (λ c. true) ∙ count_all d.commands)

-- What a change set that was built for a device is.
pub record IsBuilt (pf : Platform) (ipv4 : Text → Bool) (s : Seeds) (rollout : Text)
    (d : RolloutDevice) (cs : DeviceChangeSet) : Type 0 where
  pub device : cs.device_id ≡ d.device_id
  pub stable : cs.change_set_id ≡ stable_change_set_id s rollout d.device_id
  pub valid : validate_device_change_set pf ipv4 cs ≡ ok tt
  pub whole : IsWhole d (phases_of cs.operations)
  pub count : change_set_command_count cs ≡ length d.commands

if_valid-ok :
    (cs made_set : DeviceChangeSet) (r : Result PlanError Unit)
    → if_valid cs r ≡ ok made_set
    → (r ≡ ok tt) × (cs ≡ made_set)
if_valid-ok cs made_set (err x) h = absurd (ground arith)
if_valid-ok cs made_set (ok u) h = (refl, ok_injective h)

as_not_built-ok :
    (r : Result PlanError DeviceChangeSet) (cs : DeviceChangeSet)
    → as_not_built r ≡ ok cs
    → r ≡ ok cs
as_not_built-ok (err x) cs h = absurd (ground arith)
as_not_built-ok (ok c) cs h = ap ok (ok_injective h)

build_device_change_set-IsBuilt :
    (pf : Platform) (ipv4 : Text → Bool) (s : Seeds) (rollout : Text) (draft : RolloutPlan)
    (d : RolloutDevice) (cs : DeviceChangeSet)
    → build_device_change_set pf ipv4 s rollout draft d ≡ ok cs
    → IsBuilt pf ipv4 s rollout d cs
unfolding build_device_change_set new_device_change_set_for_rollout_operations
    change_set_command_count
build_device_change_set-IsBuilt pf ipv4 s rollout draft d cs h =
    let (os, grouped, h1) = >>=_ok (device_change_operations pf draft.namespace d) _ cs h in
    let made_set =
      with_hash pf (unhashed s rollout d.device_id os draft.health_checks (codes "local_auto")) in
    let (valid, same) =
      if_valid-ok made_set cs (validate_device_change_set pf ipv4 made_set)
        (as_not_built-ok (if_valid made_set (validate_device_change_set pf ipv4 made_set)) cs h1) in
    let whole : IsWhole d (phases_of made_set.operations) =
      subst (IsWhole d) (sym (with_ids-phases s (identity_seed s rollout d.device_id) 0 os))
        (device_change_operations-IsWhole pf draft.namespace d os grouped) in
    subst (λ z. IsBuilt pf ipv4 s rollout d z) same
      (record {
        device = refl;
        stable = refl;
        valid = valid;
        whole = whole;
        count = whole-count d _ whole;
      })

-- One built change set per device, in order.
unfoldable pub AllBuilt :
    Platform → (Text → Bool) → Seeds → Text → List RolloutDevice → List DeviceChangeSet → Type 0
AllBuilt pf ipv4 s rollout [] [] = Unit
AllBuilt pf ipv4 s rollout [] (cs ∷ css) = ⊥
AllBuilt pf ipv4 s rollout (d ∷ ds) [] = ⊥
AllBuilt pf ipv4 s rollout (d ∷ ds) (cs ∷ css) =
    IsBuilt pf ipv4 s rollout d cs × AllBuilt pf ipv4 s rollout ds css

build_change_sets-AllBuilt :
    (pf : Platform) (ipv4 : Text → Bool) (s : Seeds) (rollout : Text) (draft : RolloutPlan)
    (seen : List Text) (ds : List RolloutDevice) (css : List DeviceChangeSet)
    → build_change_sets pf ipv4 s rollout draft seen ds ≡ ok css
    → AllBuilt pf ipv4 s rollout ds css
unfolding build_change_sets AllBuilt
build_change_sets-AllBuilt pf ipv4 s rollout draft seen [] css h =
    subst (λ z. AllBuilt pf ipv4 s rollout [] z) (ok_injective h) tt
build_change_sets-AllBuilt pf ipv4 s rollout draft seen (d ∷ ds) css h =
    elim (Bool-cases (any (λ k. text_eq k (s.to_lower d.device_id)) seen)) [
      | inl again ↦ absurd (let z = (rw again at h) in ground arith)
      | inr new ↦
          let (cs, built, h1) =
            >>=_ok (build_device_change_set pf ipv4 s rollout draft d) _ css (rw new at h) in
          let (rest, later, h2) =
            >>=_ok (build_change_sets pf ipv4 s rollout draft (s.to_lower d.device_id ∷ seen) ds) _
              css h1 in
          subst (λ z. AllBuilt pf ipv4 s rollout (d ∷ ds) z) (ok_injective h2)
            (
              build_device_change_set-IsBuilt pf ipv4 s rollout draft d cs built,
              build_change_sets-AllBuilt pf ipv4 s rollout draft _ ds rest later,
            )
    ]

-- The change sets that are built for a draft are one for each of its devices, in their order. Each is
-- valid for the planner and has the id that the rollout and the device alone determine, so that a
-- second apply names the same change sets. Its operations hold each command as often as the device
-- does; each operation has an observed state and one or more commands, which are those of its namespace
-- in the order of the device; and change_set_command_count gives the number of the device's commands.
pub fleet_is_built_whole :
    (pf : Platform) (ipv4 : Text → Bool) (s : Seeds) (rollout : Text) (draft : RolloutPlan)
    (css : List DeviceChangeSet)
    → build_fleet_device_change_sets pf ipv4 s rollout draft ≡ ok css
    → AllBuilt pf ipv4 s rollout draft.devices css
unfolding build_fleet_device_change_sets
fleet_is_built_whole pf ipv4 s rollout draft css h = elim (Bool-cases (is_nil draft.devices)) [
  | inl bare ↦ absurd (let z = (rw bare at h) in ground arith)
  | inr filled ↦
      build_change_sets-AllBuilt pf ipv4 s rollout draft [] draft.devices css (rw filled at h)
]
