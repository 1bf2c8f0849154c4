-- ===== src/Tests/Plans.antt =====
-- A planned change set, at sample values.
use openwrt_controller.Uci.Translate.{translate_command, delete_all}
use openwrt_controller.Uci.Commands.{set_option, escape_val, shell_quote}
use openwrt_controller.Identity.{
  device_change_set_config_allowed, device_id_char, health_char, health_pattern, operation_id_char,
  valid_device_change_set_device_id, valid_device_change_set_id, valid_device_operation_plan_hash,
  valid_device_operation_id, anonymous_section, index_digits, index_start, name_char, name_pattern,
  section_pattern,
}
use openwrt_controller.Base.{
  ◌≡◌, ◌≢◌, arith, true, Text, refl, false, [], ◌∷◌, some, codes, pos, ok, err, if◌then◌else◌,
  text_eq,
}
use openwrt_controller.Schema.{Command, invalid_change_set_command}
use openwrt_controller.ChangeSet.{
  parse_device_change_set, identity_of, commands_valid, operations_supported,
  valid_device_change_set_command, valid_health_checks, device_change_set_plan_hash,
}
use openwrt_controller.ChangePlan.{
  DeviceChangeSet, envelope_of, validate_device_change_set, header_error, validate_health_targets,
  validate_targets, validate_operations, validate_device_operation, is_operation_config,
  validate_commands, validate_command, action_error, is_plain_action,
}
use openwrt_controller.ChangePlan.Agreement.{no_macros, document_of, validated_is_parsed}
use openwrt_controller.Tests.Samples.{hash, platform, router, change_set}

abbrev planned : DeviceChangeSet
planned = record {
  change_set_id = codes "cs-1";
  device_id = router;
  plan_hash = hash;
  generation = pos 0;
  operations = change_set.operations;
  health_checks = some (codes "example.org" ∷ []);
  confirmation_policy = codes "local_auto";
}

plan_run : validate_device_change_set platform (λ _. false) planned ≡ ok tt
unfolding validate_device_change_set text_eq header_error validate_health_targets validate_targets
    validate_operations validate_device_operation is_operation_config validate_commands
    validate_command action_error is_plain_action valid_device_operation_id
    valid_device_change_set_id operation_id_char valid_device_operation_plan_hash
    valid_device_change_set_device_id device_id_char health_pattern health_char
    device_change_set_config_allowed anonymous_section index_digits index_start name_char
    name_pattern section_pattern device_change_set_plan_hash set_option escape_val shell_quote
    translate_command delete_all
plan_run = refl

ascii_survives : (s : Text) → platform.valid_utf8 s ≡ true → platform.json_text s ≡ s
ascii_survives s h = rw h refl

some_check : planned.health_checks ≢ some []
some_check e = absurd (ground arith)

validated_is_parsed_example :
    parse_device_change_set platform (some (envelope_of platform planned)) false ≡ (
      if no_macros planned.operations
      then ok (identity_of (document_of planned))
      else err invalid_change_set_command)
validated_is_parsed_example =
    validated_is_parsed platform (λ _. false) planned ascii_survives refl some_check plan_run

-- Removing every port forward, as the planner allows it.
abbrev delete_redirects : Command
delete_redirects = record {
  action = codes "delete_all";
  config = codes "firewall";
  section = codes "redirect";
  option = [];
  value = [];
}

abbrev planned_removal : DeviceChangeSet
planned_removal = record planned {
  operations =
      record {
        operation_id = codes "op-1";
        config = codes "firewall";
        observed_state_hash = hash;
        commands = delete_redirects ∷ [];
      }
      ∷ [];
}

removal_validated : validate_device_change_set platform (λ _. false) planned_removal ≡ ok tt
unfolding validate_device_change_set text_eq header_error validate_health_targets validate_targets
    validate_operations validate_device_operation is_operation_config validate_commands
    validate_command action_error is_plain_action valid_device_operation_id
    valid_device_change_set_id operation_id_char valid_device_operation_plan_hash
    valid_device_change_set_device_id device_id_char health_pattern health_char
    device_change_set_config_allowed anonymous_section index_digits index_start name_char
    name_pattern section_pattern device_change_set_plan_hash set_option escape_val shell_quote
    translate_command delete_all
removal_validated = refl

removal_refused :
    parse_device_change_set platform (some (envelope_of platform planned_removal)) false
    ≡ err invalid_change_set_command
unfolding parse_device_change_set valid_device_change_set_id operation_id_char
    valid_device_change_set_device_id device_id_char valid_device_operation_plan_hash text_eq
    operations_supported device_change_set_config_allowed valid_health_checks health_pattern
    health_char commands_valid valid_device_change_set_command
removal_refused = refl
