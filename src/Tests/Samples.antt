-- ===== src/Tests/Samples.antt =====
-- Sample rows and documents, and the library functions instantiated by simple ones.
use openwrt_controller.Base.{
  ℕ, Bool, all, ltb, if◌then◌else◌, false, List, [], ◌∷◌, none, some, Text, codes, pos, text_eq,
}
use openwrt_controller.Schema.{
  Platform, State, absent, Command, ChangeSetEnvelope, Device, Tables, RunStatus, RunResult,
  ResultStatus, RolloutRun,
}

abbrev pub hash : Text
hash = codes "aaaaaaaaaaaaaaaaaaaaaaaaaaaaaaaaaaaaaaaaaaaaaaaaaaaaaaaaaaaaaaaa"

abbrev pub is_ascii : Text → Bool
is_ascii s = all (λ c. ltb c 128) s

abbrev pub platform : Platform
platform = record {
  equal_fold = text_eq;
  trim_space = λ s. s;
  lower = λ s. s;
  parse_ip = λ _. false;
  content_hash = λ _. hash;
  valid_utf8 = is_ascii;
  json_text = λ s. if is_ascii s then s else codes "?";
  jsonb_eq = text_eq;
  jsonb_contains = text_eq;
}

abbrev pub capability : Text
capability =
    codes
      "{\"version\":2,\"namespaces\":[\"system\",\"dhcp\",\"firewall\",\"dropbear\",\"sqm\"],\"max_operations\":8,\"confirmation_policies\":[\"local_auto\"]}"

abbrev pub schema : Text
schema = codes "tenant_a"

abbrev pub router : Text
router = codes "r1"

abbrev pub site : Text
site = codes "home"

abbrev pub idle_device : Device
idle_device = record {
  id = router;
  site_id = some site;
  device_role = some (codes "AP");
  change_set_capability = some capability;
  desired_generation = 4;
  observed_generation = 4;
  last_successful_generation = 3;
  pending_operation = none;
  last_operation = none;
  pending_change_set = none;
  last_change_set = none;
  last_rollout_status = none;
  last_rollout_at = none;
  last_health_check_at = none;
  updated_at = 10;
}

abbrev pub set_hostname : Command
set_hostname = record {
  action = codes "set";
  config = codes "system";
  section = codes "@system[0]";
  option = codes "hostname";
  value = codes "ap";
}

-- A change set that the device is to apply.
abbrev pub change_set : ChangeSetEnvelope
change_set = record {
  change_set_id = codes "cs-1";
  device_id = router;
  plan_hash = hash;
  generation = none;
  state = absent;
  failure = [];
  confirmation_policy = codes "local_auto";
  operations =
      record {
        operation_id = codes "op-1";
        config = codes "system";
        observed_state_hash = hash;
        commands = set_hostname ∷ [];
      }
      ∷ [];
  health_checks = some (codes "example.org" ∷ []);
}

-- The device's report of a state, for generation 5.
abbrev pub report : State → ChangeSetEnvelope
report s = record change_set { generation = some (pos 5); state = s }

abbrev pub run_of : Text → ℕ → RunStatus → RolloutRun
run_of id n s = record {
  id = id;
  site_id = site;
  generation = n;
  status = s;
  claim_token = none;
  worker_token = none;
  worker_lease_until = none;
  worker_cursor = 0;
  plan_hash = hash;
  requested_by = codes "admin";
  target_device_ids = codes "[]";
  plan = codes "{}";
  results = [];
  updated_at = 10;
}

abbrev pub entry : Text → ResultStatus → State → RunResult
entry device status state = record {
  device_id = some device;
  status = status;
  change_set_id = none;
  change_set_state = state;
  plan_hash = none;
  device_generation = none;
  output = none;
  error = none;
}

abbrev pub tables_of : List Device → List RolloutRun → Tables
tables_of ds runs = record { devices = ds; rollout_runs = runs; audit_logs = [] }
