-- ===== src/Tests/Phases.antt =====
-- The phases of a rollout, at a sample plan.
use openwrt_controller.Identity.{device_change_set_config_allowed}
use openwrt_controller.Base.{◌≡◌, refl, Bool, List, [], ◌∷◌, some, codes, get_elem?, text_eq}
use openwrt_controller.Schema.{Command, RunResult, absent, committed, success, waiting}
use openwrt_controller.RolloutWorker.Phase.{
  RolloutDevice, RolloutPlan, PhaseOperation, phase_order, next_phase, commands_of, device_before,
  device_operations, has_namespace, insert_device, observed_hash, phase_operations, split_commas,
}
use openwrt_controller.RolloutWorker.Order.{GatewaysLast, count_devices, gateways_go_last}
use openwrt_controller.RolloutWorker.Grouping.{IsPhaseOf, next_phase-IsPhaseOf}
use openwrt_controller.Tests.Samples.{hash, platform, router, set_hostname, entry}

abbrev set_lease_time : Command
set_lease_time = record {
  action = codes "set";
  config = codes "dhcp";
  section = codes "lan";
  option = codes "leasetime";
  value = codes "12h";
}

abbrev pub gateway : RolloutDevice
gateway = record {
  device_id = router;
  hostname = codes "gw";
  role = codes "Gateway";
  commands = set_lease_time ∷ set_hostname ∷ [];
  observed_state = (codes "system", hash) ∷ (codes "dhcp", hash) ∷ [];
}

abbrev pub access_point : RolloutDevice
access_point = record {
  device_id = codes "r2";
  hostname = codes "ap";
  role = codes "AP";
  commands = set_hostname ∷ [];
  observed_state = (codes "system", hash) ∷ [];
}

abbrev pub plan : RolloutPlan
plan = record {
  health_checks = [];
  namespace = codes "system,dhcp";
  devices = gateway ∷ access_point ∷ [];
}

gateways_go_last_example :
    GatewaysLast platform (phase_order platform (gateway ∷ access_point ∷ []))
    × ((q : RolloutDevice → Bool)
        → count_devices q (phase_order platform (gateway ∷ access_point ∷ []))
          ≡ count_devices q (gateway ∷ access_point ∷ []))
gateways_go_last_example = gateways_go_last platform (gateway ∷ access_point ∷ [])

abbrev results : List RunResult
results = entry (codes "r2") success committed ∷ entry router waiting absent ∷ []

abbrev gateway_operations : List PhaseOperation
gateway_operations =
    record { config = codes "system"; commands = set_hostname ∷ []; observed_state_hash = hash }
    ∷ record { config = codes "dhcp"; commands = set_lease_time ∷ []; observed_state_hash = hash }
    ∷ []

second_phase : next_phase platform 1 plan results ≡ some (gateway, gateway_operations)
unfolding next_phase phase_order insert_device device_before text_eq device_operations has_namespace
    split_commas device_change_set_config_allowed phase_operations commands_of observed_hash
second_phase = refl

next_phase-IsPhaseOf_example :
    (get_elem? (phase_order platform plan.devices) 1 ≡ some gateway)
    × IsPhaseOf results gateway gateway_operations
next_phase-IsPhaseOf_example =
    next_phase-IsPhaseOf platform 1 plan results gateway gateway_operations second_phase
