-- ===== src/RolloutWorker/Order.antt =====
-- The order in which queueNextPhase (internal/rolloutworker/worker.go) takes the devices of a plan.
use openwrt_controller.Base.{
  ℕ, suc, ◌≡◌, refl, arith, Bool, true, ◌&&◌, List, [], ◌∷◌, all, if◌then◌else◌, Bool-cases, inl,
  inr,
}
use openwrt_controller.Schema.{Platform}
use openwrt_controller.RolloutWorker.Phase.{
  RolloutDevice, is_gateway, device_before, insert_device, phase_order,
}

-- After a gateway come only gateways.
unfoldable pub GatewaysLast : Platform → List RolloutDevice → Type 0
GatewaysLast pf [] = Unit
GatewaysLast pf (d ∷ ds) =
    (is_gateway pf d ≡ true → all (is_gateway pf) ds ≡ true) × GatewaysLast pf ds

-- How many devices a test holds of.
unfoldable pub count_devices : (RolloutDevice → Bool) → List RolloutDevice → ℕ
count_devices q [] = 0
count_devices q (d ∷ ds) = let n = count_devices q ds in if q d then suc n else n

insert_device-all :
    (pf : Platform) (d : RolloutDevice) (ds : List RolloutDevice)
    → all (is_gateway pf) (insert_device pf d ds) ≡ (is_gateway pf d && all (is_gateway pf) ds)
unfolding insert_device
insert_device-all pf d [] = refl
insert_device-all pf d (e ∷ es) = ground (arith, insert_device-all pf d es)

insert_device-GatewaysLast :
    (pf : Platform) (d : RolloutDevice) (ds : List RolloutDevice)
    → GatewaysLast pf ds
    → GatewaysLast pf (insert_device pf d ds)
unfolding insert_device GatewaysLast device_before
insert_device-GatewaysLast pf d [] g = ((λ h. refl), tt)
insert_device-GatewaysLast pf d (e ∷ es) g = elim (Bool-cases (device_before pf e d)) [
  | inl b ↦ rw b (
    (λ h. ground (arith, insert_device-all pf d es, g.0 h)),
    insert_device-GatewaysLast pf d es g.1,
  )
  | inr n ↦ rw n ((λ h. ground (arith, g.0)), g)
]

insert_device-count :
    (pf : Platform) (q : RolloutDevice → Bool) (d : RolloutDevice) (ds : List RolloutDevice)
    → count_devices q (insert_device pf d ds) ≡ count_devices q (d ∷ ds)
unfolding insert_device count_devices
insert_device-count pf q d [] = refl
insert_device-count pf q d (e ∷ es) = ground (arith, insert_device-count pf q d es)

phase_order-GatewaysLast :
    (pf : Platform) (ds : List RolloutDevice) → GatewaysLast pf (phase_order pf ds)
unfolding phase_order GatewaysLast
phase_order-GatewaysLast pf [] = tt
phase_order-GatewaysLast pf (d ∷ ds) =
    insert_device-GatewaysLast pf d (phase_order pf ds) (phase_order-GatewaysLast pf ds)

phase_order-count :
    (pf : Platform) (q : RolloutDevice → Bool) (ds : List RolloutDevice)
    → count_devices q (phase_order pf ds) ≡ count_devices q ds
unfolding phase_order count_devices
phase_order-count pf q [] = refl
phase_order-count pf q (d ∷ ds) =
    ground (arith, insert_device-count pf q d (phase_order pf ds), phase_order-count pf q ds)

-- The order holds the devices of the plan, each as often as the plan does, and after a gateway only
-- gateways, whatever counts as a gateway's role.
pub gateways_go_last :
    (pf : Platform) (ds : List RolloutDevice)
    → GatewaysLast pf (phase_order pf ds)
      × ((q : RolloutDevice → Bool) → count_devices q (phase_order pf ds) ≡ count_devices q ds)
gateways_go_last pf ds = (phase_order-GatewaysLast pf ds, λ q. phase_order-count pf q ds)
