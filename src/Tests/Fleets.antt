-- ===== src/Tests/Fleets.antt =====
-- The plan of Phases as the handler plans it.
use openwrt_controller.Uci.Translate.{translate_command}
use openwrt_controller.Uci.Commands.{set_option, escape_val, shell_quote}
use openwrt_controller.Identity.{
  device_change_set_config_allowed, device_id_char, operation_id_char,
  valid_device_change_set_device_id, valid_device_change_set_id, valid_device_operation_plan_hash,
  valid_device_operation_id, anonymous_section, index_digits, index_start, name_char, name_pattern,
  section_pattern,
}
use openwrt_controller.Base.{
  ◌≡◌, refl, false, none, some, [], ◌∷◌, map, All, codes, pos, ok, get_elem?, if◌then◌else◌, ◌==◌,
  text_eq,
}
use openwrt_controller.ChangeSet.{device_change_set_plan_hash}
use openwrt_controller.ChangePlan.{
  DeviceChangeSet, validate_device_change_set, header_error, validate_health_targets,
  validate_targets, validate_operations, validate_device_operation, is_operation_config,
  validate_commands, validate_command, action_error, is_plain_action,
}
use openwrt_controller.ChangePlan.Rollout.{
  Seeds, new_device_change_set_for_rollout_operations, with_ids, stable_operation_id,
  stable_change_set_id,
}
use openwrt_controller.RolloutWorker.Phase.{
  RolloutPlan, phase_order, device_operations, split_commas, commands_of, observed_hash,
}
use openwrt_controller.FleetPlan.{
  requested_change_set_namespaces, device_change_operations, build_fleet_device_change_sets,
  build_device_change_set, sequential_fleet_rollout_phases, rollout_results_from_draft,
  fleet_rollout_phases, index_run,
}
use openwrt_controller.FleetPlan.Order.{IsRead, handler_order_is_the_workers}
use openwrt_controller.FleetPlan.Phases.{flat, IsPhase, fleet_phases_cover_the_fleet}
use openwrt_controller.FleetPlan.Operations.{made, handler_and_worker_agree}
use openwrt_controller.FleetPlan.Sets.{AllBuilt, fleet_is_built_whole}
use openwrt_controller.Tests.Samples.{hash, platform, set_hostname}
use openwrt_controller.Tests.Phases.{gateway, access_point, plan}

fleet_phases_cover_the_fleet_example :
    (flat (fleet_rollout_phases 6) ≡ index_run 6 0)
    × All IsPhase (fleet_rollout_phases 6)
    × (get_elem? (fleet_rollout_phases 6) 0 ≡ (if 6 == 0 then none else some (0 ∷ [])))
fleet_phases_cover_the_fleet_example = fleet_phases_cover_the_fleet 6

six : fleet_rollout_phases 6 ≡ (0 ∷ []) ∷ (1 ∷ 2 ∷ 3 ∷ 4 ∷ []) ∷ (5 ∷ []) ∷ []
unfolding fleet_rollout_phases
six = refl

roles : All (IsRead platform) plan.devices
unfolding IsRead
roles = (refl, (refl, tt))

handler_order_is_the_workers_example :
    map
      (map (get_elem? plan.devices))
      (sequential_fleet_rollout_phases (rollout_results_from_draft plan.devices))
    ≡ map (λ d. some d ∷ []) (phase_order platform plan.devices)
handler_order_is_the_workers_example = handler_order_is_the_workers platform plan.devices roles

asked :
    requested_change_set_namespaces platform (codes "system,dhcp")
    ≡ ok (codes "system" ∷ codes "dhcp" ∷ [])
unfolding requested_change_set_namespaces split_commas device_change_set_config_allowed text_eq
asked = refl

handler_and_worker_agree_example :
    made (device_change_operations platform (codes "system,dhcp") gateway)
    ≡ device_operations platform (codes "system,dhcp") [] gateway
handler_and_worker_agree_example =
    handler_and_worker_agree platform (codes "system,dhcp") (codes "system" ∷ codes "dhcp" ∷ [])
      gateway asked refl

abbrev seeds : Seeds
seeds = record { to_lower = λ s. s; sha256_hex = λ s. hash }

abbrev short_plan : RolloutPlan
short_plan = record plan { devices = access_point ∷ [] }

abbrev access_point_set : DeviceChangeSet
access_point_set = record {
  change_set_id = codes "cs-aaaaaaaaaaaaaaaaaaaaaaaaaaaaaaaa";
  device_id = codes "r2";
  plan_hash = hash;
  generation = pos 0;
  operations =
      (record {
        operation_id = codes "op-aaaaaaaaaaaaaaaaaaaaaaaaaaaaaaaa";
        config = codes "system";
        observed_state_hash = hash;
        commands = set_hostname ∷ [];
      })
      ∷ [];
  health_checks = none;
  confirmation_policy = codes "local_auto";
}

built :
    build_fleet_device_change_sets platform (λ _. false) seeds (codes "roll-1") short_plan
    ≡ ok (access_point_set ∷ [])
unfolding build_fleet_device_change_sets requested_change_set_namespaces device_change_operations
    build_device_change_set new_device_change_set_for_rollout_operations with_ids
    stable_operation_id stable_change_set_id split_commas commands_of observed_hash
    validate_device_change_set text_eq header_error validate_health_targets validate_targets
    validate_operations validate_device_operation is_operation_config validate_commands
    validate_command action_error is_plain_action valid_device_operation_id
    valid_device_change_set_id operation_id_char valid_device_operation_plan_hash
    valid_device_change_set_device_id device_id_char device_change_set_config_allowed
    anonymous_section index_digits index_start name_char name_pattern section_pattern
    device_change_set_plan_hash set_option escape_val shell_quote translate_command
built = refl

fleet_is_built_whole_example :
    AllBuilt platform
      (λ _. false)
      seeds
      (codes "roll-1")
      (access_point ∷ [])
      (access_point_set ∷ [])
fleet_is_built_whole_example =
    fleet_is_built_whole platform (λ _. false) seeds (codes "roll-1") short_plan
      (access_point_set ∷ []) built
