-- ===== src/ChangeSet.antt =====
-- parseDeviceChangeSet and the checks that it calls (internal/database/device_change_sets.go).
-- The argument is the decoded document, `none` where json.Unmarshal fails.
pub mod Laws
use openwrt_controller.Base.{
  ℕ, zero, suc, Bool, true, false, not, ◌&&◌, ◌||◌, List, [], ◌∷◌, map, Option, none, some, Text,
  codes, is_empty, length, is_nil, all, any, ltb, leb, ◌==◌, text_eq, if◌then◌else◌, ℤ, pos, negsuc,
  is_negative, pos_part, Result, ok, err,
}
use openwrt_controller.Schema.{
  Error, invalid_change_set, invalid_change_set_identity, invalid_change_set_generation,
  invalid_change_set_status, unsupported_change_set, unsupported_change_set_operation,
  invalid_health_checks, invalid_change_set_command, plan_hash_mismatch, Platform, State, absent,
  unknown, Command, ChangeOperation, ChangeSetEnvelope, OperationContent, ChangeSetContent,
  value_or_zero, is_null, elements,
}
use openwrt_controller.Identity.{
  valid_device_operation_id, valid_device_operation_plan_hash, valid_device_change_set_id,
  valid_device_change_set_device_id, name_pattern, section_pattern, health_pattern,
  device_change_set_config_allowed,
}

-- `deviceChangeSetIdentity`.
pub record ChangeSetIdentity : Type 0 where
  pub id : Text
  pub device_id : Text
  pub plan_hash : Text
  pub generation : ℕ
  pub has_gen : Bool

unfoldable pub valid_device_change_set_state : State → Bool
valid_device_change_set_state absent = false
valid_device_change_set_state unknown = false
valid_device_change_set_state _ = true

unfoldable pub valid_health_checks : Platform → List Text → Bool
valid_health_checks pf targets =
    all (λ target. not (not (pf.parse_ip target) && not (health_pattern target))) targets

-- The `switch` on the action, of a command whose namespace is allowed.
valid_action : Command → Bool
valid_action c =
    if text_eq c.action (codes "set")
      || (text_eq c.action (codes "delete") || text_eq c.action (codes "rename"))
    then (if not (section_pattern c.section)
        then false
        else if not (is_empty c.option) && not (name_pattern c.option)
        then false
        else not (text_eq c.action (codes "rename")) || name_pattern c.value)
    else if text_eq c.action (codes "add_list") || text_eq c.action (codes "del_list")
    then section_pattern c.section && name_pattern c.option
    else if text_eq c.action (codes "add")
    then name_pattern c.value
    else false

unfoldable pub valid_device_change_set_command : Command → Bool
unfolding valid_action
valid_device_change_set_command c =
    if not (device_change_set_config_allowed c.config) then false else valid_action c

abbrev pub operation_content : ChangeOperation → OperationContent
operation_content o = record {
  config = o.config;
  commands = o.commands;
  observed_state_hash = o.observed_state_hash;
}

abbrev pub content_of : ChangeSetEnvelope → ChangeSetContent
content_of e = record {
  operations = map operation_content e.operations;
  health_checks = e.health_checks;
  confirmation_policy = e.confirmation_policy;
}

unfoldable pub device_change_set_plan_hash : Platform → ChangeSetEnvelope → Text
device_change_set_plan_hash pf e = pf.content_hash (content_of e)

-- The first loop over the operations; `seen` is `seenConfigs`.
unfoldable pub operations_supported : List Text → List ChangeOperation → Bool
operations_supported seen [] = true
operations_supported seen (o ∷ os) =
    let rest = operations_supported (o.config ∷ seen) os in
    if not (valid_device_operation_id o.operation_id)
      || (not (device_change_set_config_allowed o.config)
          || (any (λ s. text_eq s o.config) seen
              || (not (valid_device_operation_plan_hash o.observed_state_hash)
                  || is_nil o.commands)))
    then false
    else rest

-- The second loop over the operations.
unfoldable pub commands_valid : List ChangeOperation → Bool
commands_valid os = all (λ o. all valid_device_change_set_command o.commands) os

abbrev pub identity_of : ChangeSetEnvelope → ChangeSetIdentity
identity_of e = record {
  id = e.change_set_id;
  device_id = e.device_id;
  plan_hash = e.plan_hash;
  generation = value_or_zero e.generation;
  has_gen = not (is_null e.generation);
}

abbrev pub is_negative_generation : Option ℤ → Bool
is_negative_generation none = false
is_negative_generation (some g) = is_negative g

-- `envelope.Generation == nil || *envelope.Generation <= 0`
abbrev pub not_positive : Option ℤ → Bool
not_positive none = true
not_positive (some (pos zero)) = true
not_positive (some (pos (suc n))) = false
not_positive (some (negsuc n)) = true

-- `envelope.Generation != nil && *envelope.Generation == 0`
abbrev pub is_zero_generation : Option ℤ → Bool
is_zero_generation (some (pos zero)) = true
is_zero_generation _ = false

parse_status : ChangeSetEnvelope → Result Error ChangeSetIdentity
parse_status e =
    if not_positive e.generation || not (valid_device_change_set_state e.state)
    then err invalid_change_set_status
    else ok (identity_of e)

parse_content : Platform → ChangeSetEnvelope → Result Error ChangeSetIdentity
parse_content pf e =
    if is_zero_generation e.generation
    then err invalid_change_set_generation
    else if not (text_eq e.confirmation_policy (codes "local_auto"))
        || (length e.operations == 0 || ltb 8 (length e.operations))
    then err unsupported_change_set
    else if not (operations_supported [] e.operations)
    then err unsupported_change_set_operation
    else if not (valid_health_checks pf (elements e.health_checks))
    then err invalid_health_checks
    else if not (commands_valid e.operations)
    then err invalid_change_set_command
    else if not (text_eq (device_change_set_plan_hash pf e) e.plan_hash)
    then err plan_hash_mismatch
    else ok (identity_of e)

parse_envelope : Platform → ChangeSetEnvelope → Bool → Result Error ChangeSetIdentity
unfolding parse_status parse_content
parse_envelope pf e status =
    if not (valid_device_change_set_id e.change_set_id)
      || (not (valid_device_change_set_device_id e.device_id)
          || not (valid_device_operation_plan_hash e.plan_hash))
    then err invalid_change_set_identity
    else if is_negative_generation e.generation
    then err invalid_change_set_generation
    else if status
    then parse_status e
    else parse_content pf e

unfoldable pub parse_device_change_set :
    Platform → Option ChangeSetEnvelope → Bool → Result Error ChangeSetIdentity
unfolding parse_envelope
parse_device_change_set pf none status = err invalid_change_set
parse_device_change_set pf (some e) status = parse_envelope pf e status
