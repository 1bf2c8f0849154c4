-- ===== src/ChangePlan/Rollout.antt =====
-- The change set of one device of a rollout: NewDeviceChangeSetForRolloutOperations of
-- internal/services/device_change_set.go.
use openwrt_controller.Base.{
  ℕ, suc, Bool, Option, none, some, List, [], ◌∷◌, ◌++◌, Text, codes, take, Result, ok, err, pos,
}
use openwrt_controller.Schema.{Platform, ChangeOperation}
use openwrt_controller.ChangePlan.{
  PlanError, DeviceChangeSet, plan_content, validate_device_change_set,
}
use openwrt_controller.Uci.Translate.{decimal}

-- strings.ToLower and the hexadecimal SHA-256 of a text.
pub record Seeds : Type 0 where
  pub to_lower : Text → Text
  pub sha256_hex : Text → Text

unfoldable pub identity_seed : Seeds → Text → Text → Text
identity_seed s rollout device = s.to_lower rollout ++ (codes ":" ++ s.to_lower device)

-- The hexadecimal text of the first 16 bytes.
abbrev pub short_hash : Seeds → Text → Text
short_hash s t = take 32 (s.sha256_hex t)

unfoldable pub stable_change_set_id : Seeds → Text → Text → Text
unfolding identity_seed
stable_change_set_id s rollout device =
    codes "cs-" ++ short_hash s (codes "device-change-set:" ++ identity_seed s rollout device)

unfoldable pub stable_operation_id : Seeds → Text → ℕ → Text → Text
unfolding decimal
stable_operation_id s seed index config =
    codes "op-"
    ++ short_hash s (
        codes "device-operation:"
        ++ (seed ++ (codes ":" ++ (decimal index ++ (codes ":" ++ config)))))

-- The loop over the operations from an index on.
unfoldable pub with_ids : Seeds → Text → ℕ → List ChangeOperation → List ChangeOperation
with_ids s seed index [] = []
with_ids s seed index (o ∷ os) =
    record o { operation_id = stable_operation_id s seed index o.config }
    ∷ with_ids s seed (suc index) os

-- `append([]string(nil), checks...)`: nil where there is nothing to append.
abbrev pub copied : List Text → Option (List Text)
copied [] = none
copied (t ∷ ts) = some (t ∷ ts)

abbrev pub unhashed :
    Seeds → Text → Text → List ChangeOperation → List Text → Text → DeviceChangeSet
unhashed s rollout device operations checks policy = record {
  change_set_id = stable_change_set_id s rollout device;
  device_id = device;
  plan_hash = [];
  generation = pos 0;
  operations = with_ids s (identity_seed s rollout device) 0 operations;
  health_checks = copied checks;
  confirmation_policy = policy;
}

abbrev pub with_hash : Platform → DeviceChangeSet → DeviceChangeSet
with_hash pf cs = record cs { plan_hash = pf.content_hash (plan_content cs) }

abbrev pub if_valid : DeviceChangeSet → Result PlanError Unit → Result PlanError DeviceChangeSet
if_valid cs (err x) = err x
if_valid cs (ok u) = ok cs

unfoldable pub new_device_change_set_for_rollout_operations :
    Platform
    → (Text → Bool)
    → Seeds
    → Text
    → Text
    → List ChangeOperation
    → List Text
    → Text
    → Result PlanError DeviceChangeSet
new_device_change_set_for_rollout_operations pf ipv4 s rollout device operations checks policy =
    let cs = with_hash pf (unhashed s rollout device operations checks policy) in
    if_valid cs (validate_device_change_set pf ipv4 cs)
