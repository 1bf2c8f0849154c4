-- ===== src/FleetPlan.antt =====
-- The planning of a rollout over the devices of a site: internal/api/handlers/site_orchestrator.go,
-- from filterRolloutResultsByNamespace to buildFleetDeviceChangeSets and the rollout phases. A draft is the
-- RolloutPlan of RolloutWorker.Phase, with the fields that these functions read.
pub mod Operations
pub mod Phases
pub mod Order
pub mod Sets
use openwrt_controller.Base.{
  ℕ, zero, suc, ◌+◌, ◌-◌, ◌<◌, Bool, true, false, not, ◌&&◌, ◌||◌, List, [], ◌∷◌, ◌++◌, map, Option,
  none, some, Text, codes, is_empty, any, is_nil, length, ltb, leb, ◌==◌, text_eq, if◌then◌else◌,
  Result, ok, err, ◌>>=◌, ◌>>◌, fail_if,
}
use openwrt_controller.Schema.{Platform, Command, ChangeOperation}
use openwrt_controller.Identity.{device_change_set_config_allowed}
use openwrt_controller.RolloutWorker.Phase.{
  RolloutDevice, RolloutPlan, split_commas, commands_of, observed_hash, text_lt, phase_configs,
}
use openwrt_controller.ChangePlan.{PlanError, DeviceChangeSet}
use openwrt_controller.ChangePlan.Rollout.{Seeds, new_device_change_set_for_rollout_operations}

-- The errors, named for their message; `not_built` is an error of the change set's constructor.
pub data FleetError : Type 0 where
  unsupported_namespace no_typed_commands namespace_not_selected : FleetError
  missing_observed_state duplicate_device no_target_device : FleetError
  not_built : PlanError → FleetError

-- `services.RenderResult`.
pub record RenderResult : Type 0 where
  pub device_id : Text
  pub hostname : Text
  pub role : Text
  pub commands : List Command

-- `rolloutResultsFromDraft`.
abbrev pub result_of : RolloutDevice → RenderResult
result_of d = record {
  device_id = d.device_id;
  hostname = d.hostname;
  role = d.role;
  commands = d.commands;
}

abbrev pub rollout_results_from_draft : List RolloutDevice → List RenderResult
rollout_results_from_draft [] = []
rollout_results_from_draft (d ∷ ds) = result_of d ∷ rollout_results_from_draft ds

-- The loop of requestedChangeSetNamespaces; the map is the list of its keys.
unfoldable pub collect_namespaces : Platform → List Text → Result FleetError (List Text)
collect_namespaces pf [] = ok []
collect_namespaces pf (n ∷ ns) =
    let rest = collect_namespaces pf ns in
    if not (device_change_set_config_allowed (pf.trim_space n))
    then err unsupported_namespace
    else (rest >>= λ ks. ok (pf.trim_space n ∷ ks))

unfoldable pub requested_change_set_namespaces : Platform → Text → Result FleetError (List Text)
unfolding collect_namespaces
requested_change_set_namespaces pf raw = collect_namespaces pf (split_commas raw)

-- `namespaces[config]`.
abbrev pub selects : List Text → Text → Bool
selects ks config = any (λ k. text_eq k config) ks

unfoldable pub keep_commands : List Text → List Command → List Command
keep_commands ks [] = []
keep_commands ks (c ∷ cs) =
    let rest = keep_commands ks cs in if selects ks c.config then c ∷ rest else rest

unfoldable pub keep_in_results : List Text → List RenderResult → List RenderResult
unfolding keep_commands
keep_in_results ks [] = []
keep_in_results ks (r ∷ rs) =
    record r { commands = keep_commands ks r.commands } ∷ keep_in_results ks rs

unfoldable pub filter_rollout_results_by_namespace :
    Platform → List RenderResult → Text → Result FleetError (List RenderResult)
unfolding keep_in_results
filter_rollout_results_by_namespace pf results namespace =
    if is_empty namespace
    then ok results
    else (requested_change_set_namespaces pf namespace >>= λ ks. ok (keep_in_results ks results))

-- dropEmptyRolloutResults; `observedState` is an association list, and a key is copied for each
-- result that is kept.
unfoldable pub find_state : Text → List (Text × List (Text × Text)) → Option (List (Text × Text))
find_state id [] = none
find_state id ((k, s) ∷ m) = if text_eq k id then some s else find_state id m

abbrev pub add_state :
    Text
    → Option (List (Text × Text))
    → List (Text × List (Text × Text))
    → List (Text × List (Text × Text))
add_state id none m = m
add_state id (some s) m = (id, s) ∷ m

unfoldable pub drop_empty_rollout_results :
    List RenderResult
    → List (Text × List (Text × Text))
    → List RenderResult × List (Text × List (Text × Text))
unfolding find_state
drop_empty_rollout_results [] m = ([], [])
drop_empty_rollout_results (r ∷ rs) m =
    let rest = drop_empty_rollout_results rs m in
    if is_nil r.commands
    then rest
    else (r ∷ rest.0, add_state r.device_id (find_state r.device_id m) rest.1)

-- The check that every command is in a selected namespace.
unfoldable pub all_selected : List Text → List Command → Bool
all_selected ks [] = true
all_selected ks (c ∷ cs) = let rest = all_selected ks cs in selects ks c.config && rest

-- The loop over the ordered namespaces.
unfoldable pub group_operations :
    List (Text × Text) → List Command → List Text → Result FleetError (List ChangeOperation)
group_operations observed commands [] = ok []
group_operations observed commands (config ∷ configs) =
    let rest = group_operations observed commands configs in
    if is_nil (commands_of config commands)
    then rest
    else if is_empty (observed_hash config observed)
    then err missing_observed_state
    else (rest >>= λ os. ok (
        record {
          operation_id = [];
          config = config;
          observed_state_hash = observed_hash config observed;
          commands = commands_of config commands;
        }
        ∷ os))

-- The operations that buildDeviceChangeSet makes of a device.
unfoldable pub device_change_operations :
    Platform → Text → RolloutDevice → Result FleetError (List ChangeOperation)
unfolding group_operations all_selected
device_change_operations pf namespace d = requested_change_set_namespaces pf namespace >>= λ ks.
    fail_if (is_nil d.commands || is_nil ks) no_typed_commands
    >> fail_if (not (all_selected ks d.commands)) namespace_not_selected
    >> group_operations d.observed_state d.commands phase_configs

abbrev pub as_not_built : Result PlanError DeviceChangeSet → Result FleetError DeviceChangeSet
as_not_built (err x) = err (not_built x)
as_not_built (ok cs) = ok cs

unfoldable pub build_device_change_set :
    Platform
    → (Text → Bool)
    → Seeds
    → Text
    → RolloutPlan
    → RolloutDevice
    → Result FleetError DeviceChangeSet
build_device_change_set pf ipv4 s rollout draft d =
    device_change_operations pf draft.namespace d >>= λ os. as_not_built (
      new_device_change_set_for_rollout_operations pf ipv4 s rollout d.device_id os
        draft.health_checks (codes "local_auto"))

unfoldable pub count_in_operations : List ChangeOperation → ℕ
count_in_operations [] = 0
count_in_operations (o ∷ os) = length o.commands + count_in_operations os

unfoldable pub change_set_command_count : DeviceChangeSet → ℕ
unfolding count_in_operations
change_set_command_count cs = count_in_operations cs.operations

-- The loop of buildFleetDeviceChangeSets; `seen` is its map.
unfoldable pub build_change_sets :
    Platform
    → (Text → Bool)
    → Seeds
    → Text
    → RolloutPlan
    → List Text
    → List RolloutDevice
    → Result FleetError (List DeviceChangeSet)
build_change_sets pf ipv4 s rollout draft seen [] = ok []
build_change_sets pf ipv4 s rollout draft seen (d ∷ ds) =
    let rest = build_change_sets pf ipv4 s rollout draft (s.to_lower d.device_id ∷ seen) ds in
    if any (λ k. text_eq k (s.to_lower d.device_id)) seen
    then err duplicate_device
    else (build_device_change_set pf ipv4 s rollout draft d >>= λ cs. rest >>= λ css. ok (cs ∷ css))

unfoldable pub build_fleet_device_change_sets :
    Platform → (Text → Bool) → Seeds → Text → RolloutPlan → Result FleetError (List DeviceChangeSet)
unfolding build_change_sets
build_fleet_device_change_sets pf ipv4 s rollout draft =
    if is_nil draft.devices
    then err no_target_device
    else build_change_sets pf ipv4 s rollout draft [] draft.devices

-- The comparison that sequentialFleetRolloutPhases gives to sort.SliceStable: here the role is
-- compared as it is written.
unfoldable pub result_before : RenderResult → RenderResult → Bool
result_before d e =
    let left = text_eq d.role (codes "Gateway") in
    let right = text_eq e.role (codes "Gateway") in
    if (left && not right) || (not left && right) then not left else text_lt d.device_id e.device_id

abbrev pub indexed {ℓ} : {A : Type ℓ} → ℕ → List A → List (ℕ × A)
indexed i [] = []
indexed i (x ∷ xs) = (i, x) ∷ indexed (suc i) xs

unfoldable pub insert_index : ℕ × RenderResult → List (ℕ × RenderResult) → List (ℕ × RenderResult)
insert_index d [] = d ∷ []
insert_index d (e ∷ es) =
    let rest = insert_index d es in if result_before e.1 d.1 then e ∷ rest else d ∷ (e ∷ es)

unfoldable pub sort_indices : List (ℕ × RenderResult) → List (ℕ × RenderResult)
unfolding insert_index
sort_indices [] = []
sort_indices (d ∷ ds) = insert_index d (sort_indices ds)

unfoldable pub sequential_fleet_rollout_phases : List RenderResult → List (List ℕ)
unfolding sort_indices
sequential_fleet_rollout_phases results = map (λ d. d.0 ∷ []) (sort_indices (indexed 0 results))

-- `fleetSyncMaxConcurrency`.
abbrev pub max_concurrency : ℕ
max_concurrency = 4

-- The indices from `start`, as many as `count`.
unfoldable pub index_run : ℕ → ℕ → List ℕ
index_run zero start = []
index_run (suc count) start = start ∷ index_run count (suc start)

-- The loop of fleetRolloutPhases from `start` on, on fuel.
unfoldable pub phases_from : ℕ → ℕ → ℕ → List (List ℕ)
unfolding index_run
phases_from zero start count = []
phases_from (suc fuel) start count =
    let rest = phases_from fuel (start + max_concurrency) count in
    if ltb start count
    then index_run
        ((if ltb count (start + max_concurrency) then count else start + max_concurrency) - start)
        start
      ∷ rest
    else []

unfoldable pub fleet_rollout_phases : ℕ → List (List ℕ)
unfolding phases_from
fleet_rollout_phases count = if count == 0 then [] else (0 ∷ []) ∷ phases_from count 1 count

unfoldable pub ordered_fleet_rollout_phases : ℕ → List (List ℕ)
unfolding index_run
ordered_fleet_rollout_phases count = map (λ i. i ∷ []) (index_run count 0)
