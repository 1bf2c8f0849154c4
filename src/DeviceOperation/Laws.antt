-- ===== src/DeviceOperation/Laws.antt =====
-- Lemmas on parseOperationIdentity (internal/database/device_operations.go) where it accepts.
use openwrt_controller.Base.{◌≡◌, Bool, some, ok, arith, if◌then◌else◌}
use openwrt_controller.Schema.{OperationEnvelope, value_or_zero}
use openwrt_controller.DeviceOperation.{OperationIdentity, parse_operation_identity}

abbrev pub identity_of : OperationEnvelope → Bool → OperationIdentity
identity_of e status = record {
  id = if status then e.id else e.operation_id;
  plan_hash = e.plan_hash;
  generation = value_or_zero e.generation;
}

-- The identity of an accepted document is made of its fields.
pub parse-identity :
    (e : OperationEnvelope) (i : OperationIdentity) (status : Bool)
    → parse_operation_identity (some e) status ≡ ok i
    → i ≡ identity_of e status
unfolding parse_operation_identity
parse-identity e i status h = ground arith
