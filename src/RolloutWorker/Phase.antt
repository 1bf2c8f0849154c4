-- ===== src/RolloutWorker/Phase.antt =====
-- The device and the operations that queueNextPhase (internal/rolloutworker/worker.go) queues next,
-- from the plan and the results of a run.
use openwrt_controller.Base.{
  ℕ, Bool, true, false, not, ◌&&◌, ◌||◌, List, [], ◌∷◌, Option, none, some, Text, codes, is_empty,
  all, any, ltb, ◌==◌, get_elem?, is_nil, text_eq, if◌then◌else◌,
}
use openwrt_controller.Schema.{Command, Platform, RunResult}
use openwrt_controller.Identity.{device_change_set_config_allowed}
use openwrt_controller.RolloutDraft.Queueing.{is_waiting}

pub record RolloutDevice : Type 0 where
  pub device_id : Text
  pub hostname : Text
  pub role : Text
  pub commands : List Command
  -- the map from a namespace to the hash of its observed state
  pub observed_state : List (Text × Text)

pub record RolloutPlan : Type 0 where
  pub health_checks : List Text
  pub namespace : Text
  pub devices : List RolloutDevice

-- `DeviceChangeOperation`, before it has an id.
pub record PhaseOperation : Type 0 where
  pub config : Text
  pub commands : List Command
  pub observed_state_hash : Text

-- `s < t` on strings: byte by byte.
unfoldable pub text_lt : Text → Text → Bool
text_lt [] [] = false
text_lt [] (c ∷ t) = true
text_lt (c ∷ s) [] = false
text_lt (c ∷ s) (d ∷ t) = ltb c d || (c == d && text_lt s t)

abbrev pub is_gateway : Platform → RolloutDevice → Bool
is_gateway pf d = pf.equal_fold d.role (codes "Gateway")

-- The comparison that is given to sort.SliceStable.
unfoldable pub device_before : Platform → RolloutDevice → RolloutDevice → Bool
device_before pf d e =
    if (is_gateway pf d && not (is_gateway pf e)) || (not (is_gateway pf d) && is_gateway pf e)
    then not (is_gateway pf d)
    else text_lt d.device_id e.device_id

-- A device goes before the first one that is not before it.
unfoldable pub insert_device : Platform → RolloutDevice → List RolloutDevice → List RolloutDevice
insert_device pf d [] = d ∷ []
insert_device pf d (e ∷ es) =
    let rest = insert_device pf d es in if device_before pf e d then e ∷ rest else d ∷ (e ∷ es)

unfoldable pub phase_order : Platform → List RolloutDevice → List RolloutDevice
phase_order pf [] = []
phase_order pf (d ∷ ds) = insert_device pf d (phase_order pf ds)

abbrev onto_first : ℕ → List Text → List Text
onto_first c [] = (c ∷ []) ∷ []
onto_first c (w ∷ ws) = (c ∷ w) ∷ ws

-- strings.Split(s, ",").
unfoldable pub split_commas : Text → List Text
split_commas [] = [] ∷ []
split_commas (c ∷ s) =
    let rest = split_commas s in if c == b',' then [] ∷ rest else onto_first c rest

-- Whether the map `namespaces` has the namespace.
unfoldable pub has_namespace : Platform → Text → Text → Bool
has_namespace pf namespace config =
    any
      (λ n. device_change_set_config_allowed (pf.trim_space n) && text_eq (pf.trim_space n) config)
      (split_commas namespace)

-- `byNamespace[config]`.
unfoldable pub commands_of : Text → List Command → List Command
commands_of config [] = []
commands_of config (c ∷ cs) =
    let rest = commands_of config cs in if text_eq c.config config then c ∷ rest else rest

-- `device.ObservedState[config]`, the empty text where it is missing.
unfoldable pub observed_hash : Text → List (Text × Text) → Text
observed_hash config [] = []
observed_hash config ((k, h) ∷ m) = if text_eq k config then h else observed_hash config m

abbrev pub with_operation :
    PhaseOperation → Option (List PhaseOperation) → Option (List PhaseOperation)
with_operation o none = none
with_operation o (some os) = some (o ∷ os)

-- The loop over the namespaces; `none` where it returns.
unfoldable pub phase_operations :
    List (Text × Text) → List Command → List Text → Option (List PhaseOperation)
phase_operations observed commands [] = some []
phase_operations observed commands (config ∷ configs) =
    let rest = phase_operations observed commands configs in
    if is_nil (commands_of config commands)
    then rest
    else if is_empty (observed_hash config observed)
    then none
    else with_operation
        (record {
          config = config;
          commands = commands_of config commands;
          observed_state_hash = observed_hash config observed;
        })
        rest

abbrev pub phase_configs : List Text
phase_configs =
    codes "system" ∷ codes "dhcp" ∷ codes "firewall" ∷ codes "dropbear" ∷ codes "sqm" ∷ []

abbrev pub is_started : Text → RunResult → Bool
is_started device_id r = names_it r.device_id && not (is_waiting r.status)
  where
    names_it : Option Text → Bool
    names_it = elim [ none ↦ false | some d ↦ text_eq d device_id ]

unfoldable pub device_operations :
    Platform → Text → List RunResult → RolloutDevice → Option (List PhaseOperation)
device_operations pf namespace results d =
    if any (is_started d.device_id) results
    then none
    else if not (all (λ c. has_namespace pf namespace c.config) d.commands)
    then none
    else phase_operations d.observed_state d.commands phase_configs

-- What is queued next: a device and its operations, or nothing.
unfoldable pub next_phase :
    Platform → ℕ → RolloutPlan → List RunResult → Option (RolloutDevice × List PhaseOperation)
next_phase pf cursor plan results = elim (get_elem? (phase_order pf plan.devices) cursor) [
  | none ↦ none
  | some d ↦ elim (device_operations pf plan.namespace results d) [
    | none ↦ none
    | some os ↦ some (d, os)
  ]
]
