-- ===== src/FleetPlan/Operations.antt =====
-- The operations that the handler (internal/api/handlers/site_orchestrator.go) and the worker
-- (internal/rolloutworker/worker.go) make of the commands of a device.
use openwrt_controller.Base.{
  false, ◌&&◌, List, [], ◌∷◌, Option, none, some, Text, all, any, is_nil, is_empty, ◌==◌, text_eq,
  Result, ok, err, >>=_ok, ok_injective, ◌≡◌, refl, arith, ap, sym, ◌∙◌, subst, inl, inr,
  Bool-cases, Result-cases,
}
use openwrt_controller.Identity.{device_change_set_config_allowed}
use openwrt_controller.Schema.{Platform, Command, ChangeOperation}
use openwrt_controller.RolloutWorker.Phase.{
  RolloutDevice, PhaseOperation, has_namespace, split_commas, commands_of, observed_hash,
  phase_operations, phase_configs, device_operations,
}
use openwrt_controller.FleetPlan.{
  FleetError, collect_namespaces, requested_change_set_namespaces, selects, all_selected,
  group_operations, device_change_operations,
}

-- An operation of the handler, as the worker has it.
abbrev pub phase_of : ChangeOperation → PhaseOperation
phase_of o = record {
  config = o.config;
  commands = o.commands;
  observed_state_hash = o.observed_state_hash;
}

abbrev pub phases_of : List ChangeOperation → List PhaseOperation
phases_of [] = []
phases_of (o ∷ os) = phase_of o ∷ phases_of os

-- The operations that were made, if they were.
abbrev pub made : Result FleetError (List ChangeOperation) → Option (List PhaseOperation)
made (err x) = none
made (ok os) = some (phases_of os)

collect_namespaces-selects :
    (pf : Platform) (ns ks : List Text) (config : Text)
    → collect_namespaces pf ns ≡ ok ks
    → selects ks config
      ≡ any
          (λ n.
            device_change_set_config_allowed (pf.trim_space n) && text_eq (pf.trim_space n) config)
          ns
unfolding collect_namespaces
collect_namespaces-selects pf [] ks config h = ground arith
collect_namespaces-selects pf (n ∷ ns) ks config h =
    elim (Bool-cases (device_change_set_config_allowed (pf.trim_space n))) [
      | inr bad ↦ absurd (let z = (rw bad at h) in ground arith)
      | inl good ↦
          let h1 = (rw good at h) in
          let (js, rest, last) = >>=_ok (collect_namespaces pf ns) _ ks h1 in
          let same = ok_injective last in
          let ih = collect_namespaces-selects pf ns js config rest in
          subst
            (λ z.
              selects z config
              ≡ any
                  (λ n.
                    device_change_set_config_allowed (pf.trim_space n)
                    && text_eq (pf.trim_space n) config)
                  (n ∷ ns))
            same (rw good (rw ih refl))
    ]

all_selected-all :
    (pf : Platform) (namespace : Text) (ks : List Text) (cs : List Command)
    → requested_change_set_namespaces pf namespace ≡ ok ks
    → all_selected ks cs ≡ all (λ c. has_namespace pf namespace c.config) cs
unfolding all_selected has_namespace requested_change_set_namespaces
all_selected-all pf namespace ks [] h = refl
all_selected-all pf namespace ks (c ∷ cs) h =
    rw (collect_namespaces-selects pf (split_commas namespace) ks c.config h)
      (rw (all_selected-all pf namespace ks cs h) refl)

group_operations-made :
    (m : List (Text × Text)) (cs : List Command) (configs : List Text)
    → made (group_operations m cs configs) ≡ phase_operations m cs configs
unfolding group_operations phase_operations
group_operations-made m cs [] = refl
group_operations-made m cs (config ∷ configs) =
    let ih = group_operations-made m cs configs in
    elim (Bool-cases (is_nil (commands_of config cs))) [
      | inl none_here ↦ rw none_here ih
      | inr here ↦ elim (Bool-cases (is_empty (observed_hash config m))) [
        | inl bare ↦ rw here (rw bare refl)
        | inr seen ↦ elim (Result-cases (group_operations m cs configs)) [
          | inl (x, bad) ↦ rw here (rw seen (rw bad (rw (sym (ap made (sym bad) ∙ ih)) refl)))
          | inr (os, good) ↦ rw here (rw seen (rw good (rw (sym (ap made (sym good) ∙ ih)) refl)))
        ]
      ]
    ]

collect_namespaces-some :
    (pf : Platform) (n : Text) (ns ks : List Text)
    → collect_namespaces pf (n ∷ ns) ≡ ok ks
    → is_nil ks ≡ false
unfolding collect_namespaces
collect_namespaces-some pf n ns ks h =
    elim (Bool-cases (device_change_set_config_allowed (pf.trim_space n))) [
      | inr bad ↦ absurd (let z = (rw bad at h) in ground arith)
      | inl good ↦
          let (js, _, last) = >>=_ok (collect_namespaces pf ns) _ ks (rw good at h) in
          subst (λ z. is_nil z ≡ false) (ok_injective last) refl
    ]

split_commas-some : (s : Text) → (w : Text) × (ws : List Text) × (split_commas s ≡ w ∷ ws)
unfolding split_commas
split_commas-some [] = ([], [], refl)
split_commas-some (c ∷ s) = elim (Bool-cases (c == b',')) [
  | inl comma ↦ rw comma ([], split_commas s, refl)
  | inr other ↦ let (w, ws, split) = split_commas-some s in rw other (rw split (c ∷ w, ws, refl))
]

requested-some :
    (pf : Platform) (namespace : Text) (ks : List Text)
    → requested_change_set_namespaces pf namespace ≡ ok ks
    → is_nil ks ≡ false
unfolding requested_change_set_namespaces
requested-some pf namespace ks h =
    let (w, ws, split) = split_commas-some namespace in
    collect_namespaces-some pf w ws ks (rw split at h)

-- For a device with commands and a namespace field that the handler accepts, the handler's change
-- set has the operations that the worker makes of the same device, in the same order, and the handler
-- refuses the device where the worker makes none.
pub handler_and_worker_agree :
    (pf : Platform) (namespace : Text) (ks : List Text) (d : RolloutDevice)
    → requested_change_set_namespaces pf namespace ≡ ok ks
    → is_nil d.commands ≡ false
    → made (device_change_operations pf namespace d) ≡ device_operations pf namespace [] d
unfolding device_change_operations device_operations
handler_and_worker_agree pf namespace ks d h n =
    let within = all_selected-all pf namespace ks d.commands h in
    let grouped = group_operations-made d.observed_state d.commands phase_configs in
    elim (Bool-cases (all_selected ks d.commands)) [
      | inl kept ↦
          let mine = sym within ∙ kept in
          rw h (rw n (rw (requested-some pf namespace ks h) (rw kept (rw mine grouped))))
      | inr out ↦
          let mine = sym within ∙ out in
          rw h (rw n (rw (requested-some pf namespace ks h) (rw out (rw mine refl))))
    ]
