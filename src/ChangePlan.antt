-- ===== src/ChangePlan.antt =====
-- The planning of device changes: internal/services/device_change_set.go, ValidateDeviceOperation of
-- device_operation.go and ValidateHealthTargets of uci_bridge.go. The proofs are in Agreement.
pub mod Agreement
pub mod Rollout
use openwrt_controller.Base.{
  ℕ, zero, suc, Bool, true, false, not, ◌&&◌, ◌||◌, List, [], ◌∷◌, ◌++◌, map, Option, none, some,
  Text, codes, is_empty, any, all, is_nil, length, ltb, ◌==◌, text_eq, if◌then◌else◌, ℤ, pos,
  negsuc, is_negative, Result, ok, err, ◌>>◌,
}
use openwrt_controller.Schema.{
  Platform, Command, ChangeOperation, ChangeSetEnvelope, ChangeSetContent, absent, elements,
}
use openwrt_controller.Identity.{
  valid_device_operation_id, valid_device_operation_plan_hash, valid_device_change_set_id,
  valid_device_change_set_device_id, health_pattern, device_change_set_config_allowed,
}
use openwrt_controller.ChangeSet.{operation_content}
use openwrt_controller.Uci.Translate.{translate_command, decimal}

-- The errors of validation, named for their message.
pub data PlanError : Type 0 where
  invalid_identity invalid_device invalid_generation unsupported_policy : PlanError
  wrong_operation_count unsupported_namespace duplicate_namespace : PlanError
  invalid_observed_hash plan_hash_differs : PlanError
  invalid_namespace empty_operation network_without_health_check invalid_health_target : PlanError
  crosses_namespace ensure_host_outside_dhcp delete_all_outside_redirects : PlanError
  unsupported_action invalid_uci_command : PlanError

-- `DeviceChangeSet`.
pub record DeviceChangeSet : Type 0 where
  pub change_set_id : Text
  pub device_id : Text
  pub plan_hash : Text
  pub generation : ℤ
  pub operations : List ChangeOperation
  pub health_checks : Option (List Text)
  pub confirmation_policy : Text

-- `omitempty` of the generation.
abbrev pub omit_zero : ℤ → Option ℤ
omit_zero (pos zero) = none
omit_zero (pos (suc n)) = some (pos (suc n))
omit_zero (negsuc n) = some (negsuc n)

-- `omitempty` of the health checks: an empty slice is left out, and read as the nil slice.
abbrev pub sent_checks : Platform → Option (List Text) → Option (List Text)
sent_checks pf none = none
sent_checks pf (some []) = none
sent_checks pf (some (t ∷ ts)) = some (map pf.json_text (t ∷ ts))

abbrev pub sent_command : Platform → Command → Command
sent_command pf c = record {
  action = pf.json_text c.action;
  config = pf.json_text c.config;
  section = pf.json_text c.section;
  option = pf.json_text c.option;
  value = pf.json_text c.value;
}

abbrev pub sent_operation : Platform → ChangeOperation → ChangeOperation
sent_operation pf o = record {
  operation_id = pf.json_text o.operation_id;
  config = pf.json_text o.config;
  observed_state_hash = pf.json_text o.observed_state_hash;
  commands = map (sent_command pf) o.commands;
}

-- What json.Unmarshal reads from json.Marshal of the change set.
abbrev pub envelope_of : Platform → DeviceChangeSet → ChangeSetEnvelope
envelope_of pf cs = record {
  change_set_id = pf.json_text cs.change_set_id;
  device_id = pf.json_text cs.device_id;
  plan_hash = pf.json_text cs.plan_hash;
  generation = omit_zero cs.generation;
  state = absent;
  failure = [];
  confirmation_policy = pf.json_text cs.confirmation_policy;
  operations = map (sent_operation pf) cs.operations;
  health_checks = sent_checks pf cs.health_checks;
}

-- `deviceChangeSetPlanHash`: its content has no `omitempty`.
abbrev pub plan_content : DeviceChangeSet → ChangeSetContent
plan_content cs = record {
  operations = map operation_content cs.operations;
  health_checks = cs.health_checks;
  confirmation_policy = cs.confirmation_policy;
}

abbrev pub target_ok : Platform → Text → Bool
target_ok pf t = not (is_empty t || (not (pf.parse_ip t) && not (health_pattern t)))

abbrev pub onto : Text → Result PlanError (List Text) → Result PlanError (List Text)
onto t (ok ts) = ok (t ∷ ts)
onto t (err x) = err x

-- The loop of ValidateHealthTargets; `seen` is its map.
unfoldable pub validate_targets : Platform → List Text → List Text → Result PlanError (List Text)
validate_targets pf seen [] = ok []
validate_targets pf seen (t ∷ ts) =
    let skipped = validate_targets pf seen ts in
    let rest = validate_targets pf (t ∷ seen) ts in
    if not (target_ok pf t)
    then err invalid_health_target
    else if any (λ s. text_eq s t) seen
    then skipped
    else onto t rest

unfoldable pub validate_health_targets : Platform → List Text → Result PlanError (List Text)
validate_health_targets pf ts = validate_targets pf [] ts

-- `deviceOperationConfigs`.
unfoldable pub is_operation_config : Text → Bool
is_operation_config config =
    text_eq config (codes "wireless")
    || (text_eq config (codes "network") || device_change_set_config_allowed config)

-- The first case of the switch.
unfoldable pub is_plain_action : Text → Bool
is_plain_action action =
    text_eq action (codes "set")
    || (text_eq action (codes "delete")
        || (text_eq action (codes "add_list")
            || (text_eq action (codes "del_list")
                || (text_eq action (codes "add") || text_eq action (codes "rename")))))

-- The action's own conditions; none is an action that may go on.
unfoldable pub action_error : Text → Command → Option PlanError
action_error config c =
    if is_plain_action c.action
    then none
    else if text_eq c.action (codes "ensure_host")
    then (if not (text_eq config (codes "dhcp")) then some ensure_host_outside_dhcp else none)
    else if text_eq c.action (codes "delete_all")
    then (if not (text_eq config (codes "firewall"))
          || (not (text_eq c.section (codes "redirect"))
              || (not (is_empty c.option) || not (is_empty c.value)))
        then some delete_all_outside_redirects
        else none)
    else some unsupported_action

-- One turn of the loop over the commands; `ipv4` is net.ParseIP(s).To4() != nil.
unfoldable pub validate_command : (Text → Bool) → Text → Command → Result PlanError Unit
validate_command ipv4 config c =
    if not (text_eq c.config config) then err crosses_namespace else elim (action_error config c) [
      | some x ↦ err x
      | none ↦ if is_empty (translate_command ipv4 c) then err invalid_uci_command else ok tt
    ]

unfoldable pub validate_commands : (Text → Bool) → Text → List Command → Result PlanError Unit
validate_commands ipv4 config [] = ok tt
validate_commands ipv4 config (c ∷ cs) =
    let rest = validate_commands ipv4 config cs in validate_command ipv4 config c >> rest

abbrev pub failure_of : {A : Type 0} → Result PlanError A → Result PlanError Unit
failure_of (ok a) = ok tt
failure_of (err x) = err x

unfoldable pub validate_device_operation :
    Platform → (Text → Bool) → Text → List Command → List Text → Result PlanError Unit
validate_device_operation pf ipv4 config commands checks =
    if not (is_operation_config config)
    then err invalid_namespace
    else if is_nil commands
    then err empty_operation
    else if text_eq config (codes "network") && is_nil checks
    then err network_without_health_check
    else failure_of (validate_health_targets pf checks) >> validate_commands ipv4 config commands

-- The loop over the operations; `seen` is `seenConfigs`.
unfoldable pub validate_operations :
    Platform → (Text → Bool) → List Text → List Text → List ChangeOperation → Result PlanError Unit
validate_operations pf ipv4 checks seen [] = ok tt
validate_operations pf ipv4 checks seen (o ∷ os) =
    let rest = validate_operations pf ipv4 checks (o.config ∷ seen) os in
    if not (valid_device_operation_id o.operation_id)
      || not (device_change_set_config_allowed o.config)
    then err unsupported_namespace
    else if any (λ s. text_eq s o.config) seen
    then err duplicate_namespace
    else if not (valid_device_operation_plan_hash o.observed_state_hash)
    then err invalid_observed_hash
    else validate_device_operation pf ipv4 o.config o.commands checks >> rest

-- The checks before the loop.
unfoldable pub header_error : DeviceChangeSet → Option PlanError
header_error cs =
    if not (valid_device_change_set_id cs.change_set_id)
      || not (valid_device_operation_plan_hash cs.plan_hash)
    then some invalid_identity
    else if not (valid_device_change_set_device_id cs.device_id)
    then some invalid_device
    else if is_negative cs.generation
    then some invalid_generation
    else if not (text_eq cs.confirmation_policy (codes "local_auto"))
    then some unsupported_policy
    else if length cs.operations == 0 || ltb 8 (length cs.operations)
    then some wrong_operation_count
    else none

check_hash : Platform → DeviceChangeSet → Result PlanError Unit
check_hash pf cs =
    if not (text_eq (pf.content_hash (plan_content cs)) cs.plan_hash)
    then err plan_hash_differs
    else ok tt

unfoldable pub validate_device_change_set :
    Platform → (Text → Bool) → DeviceChangeSet → Result PlanError Unit
unfolding check_hash
validate_device_change_set pf ipv4 cs = elim (header_error cs) [
  | some x ↦ err x
  | none ↦
      failure_of (validate_health_targets pf (elements cs.health_checks))
      >> validate_operations pf ipv4 (elements cs.health_checks) [] cs.operations
      >> check_hash pf cs
]
