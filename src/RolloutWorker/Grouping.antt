-- ===== src/RolloutWorker/Grouping.antt =====
-- The operations that queueNextPhase (internal/rolloutworker/worker.go) makes of the commands of a
-- device.
use openwrt_controller.Base.{
  ℕ, ◌+◌, suc, ◌≡◌, refl, arith, Bool, true, false, ◌&&◌, List, [], ◌∷◌, some, Text, codes, All,
  all, any, is_nil, is_empty, get_elem?, text_eq, text_eq→eq, if◌then◌else◌, Bool-cases,
  Option-cases, subst, ap, ◌∙◌, inl, inr,
}
use openwrt_controller.Schema.{Command, Platform, RunResult}
use openwrt_controller.Identity.{device_change_set_config_allowed}
use openwrt_controller.RolloutWorker.Phase.{
  RolloutDevice, RolloutPlan, PhaseOperation, has_namespace, commands_of, observed_hash,
  phase_operations, phase_configs, is_started, device_operations, next_phase, phase_order,
  split_commas,
}

-- How many commands a test holds of, in a list and in the operations.
unfoldable pub count_commands : (Command → Bool) → List Command → ℕ
count_commands q [] = 0
count_commands q (c ∷ cs) = let n = count_commands q cs in if q c then suc n else n

unfoldable pub count_in : (Command → Bool) → List PhaseOperation → ℕ
unfolding count_commands
count_in q [] = 0
count_in q (o ∷ os) = count_commands q o.commands + count_in q os

count_of : (Command → Bool) → List Command → List Text → ℕ
count_of q cs [] = 0
count_of q cs (config ∷ configs) = count_commands q (commands_of config cs) + count_of q cs configs

-- The commands of one operation: some, all of its namespace, with an observed state.
pub record IsGrouped (o : PhaseOperation) : Type 0 where
  pub some_command : is_nil o.commands ≡ false
  pub same_config : all (λ c. text_eq c.config o.config) o.commands ≡ true
  pub observed : is_empty o.observed_state_hash ≡ false

empty_count : (q : Command → Bool) (cs : List Command) → is_nil cs ≡ true → count_commands q cs ≡ 0
unfolding count_commands
empty_count q [] h = refl
empty_count q (c ∷ cs) h = ground arith

abbrev operation_of : List (Text × Text) → List Command → Text → PhaseOperation
operation_of m cs config = record {
  config = config;
  commands = commands_of config cs;
  observed_state_hash = observed_hash config m;
}

commands_of-config :
    (config : Text) (cs : List Command)
    → all (λ c. text_eq c.config config) (commands_of config cs) ≡ true
unfolding commands_of
commands_of-config config [] = refl
commands_of-config config (c ∷ cs) = ground (arith, commands_of-config config cs)

phase_operations-count :
    (m : List (Text × Text)) (cs : List Command) (configs : List Text) (os : List PhaseOperation)
    (q : Command → Bool)
    → phase_operations m cs configs ≡ some os
    → count_in q os ≡ count_of q cs configs
unfolding phase_operations count_in count_of
phase_operations-count m cs [] os q h = ground arith
phase_operations-count m cs (config ∷ configs) os q h =
    elim (Option-cases (phase_operations m cs configs)) [
      | inl n ↦ ground (
        arith,
        n,
        empty_count q (commands_of config cs),
        phase_operations-count m cs configs os q,
      )
      | inr (rest, r) ↦ ground (
        arith,
        r,
        empty_count q (commands_of config cs),
        phase_operations-count m cs configs rest q r,
      )
    ]

phase_operations-IsGrouped :
    (m : List (Text × Text)) (cs : List Command) (configs : List Text) (os : List PhaseOperation)
    → phase_operations m cs configs ≡ some os
    → All IsGrouped os
unfolding phase_operations
phase_operations-IsGrouped m cs [] os h =
    let e : [] ≡ os = ground arith in subst (All IsGrouped) e tt
phase_operations-IsGrouped m cs (config ∷ configs) os h =
    elim (Option-cases (phase_operations m cs configs)) [
      | inl n ↦ absurd (ground (arith, n))
      | inr (rest, r) ↦
          let later = phase_operations-IsGrouped m cs configs rest r in
          elim (Bool-cases (is_nil (commands_of config cs))) [
            | inl e ↦
                (let same : rest ≡ os = ground (arith, r, e) in subst (All IsGrouped) same later)
            | inr n ↦ elim (Bool-cases (is_empty (observed_hash config m))) [
              | inl e ↦ absurd (ground (arith, r, n, e))
              | inr o ↦
                  let same : operation_of m cs config ∷ rest ≡ os = ground (arith, r, n, o) in
                  subst (All IsGrouped) same (
                    record {
                      some_command = n;
                      same_config = commands_of-config config cs;
                      observed = o;
                    },
                    later,
                  )
            ]
          ]
    ]

-- The commands that a test holds of, in their order.
unfoldable pub commands_where : (Command → Bool) → List Command → List Command
commands_where q [] = []
commands_where q (c ∷ cs) = let rest = commands_where q cs in if q c then c ∷ rest else rest

-- An operation has the commands of its namespace, all of them and in their order.
abbrev pub KeepsOrder : List Command → PhaseOperation → Type 0
KeepsOrder cs o = o.commands ≡ commands_where (λ c. text_eq c.config o.config) cs

commands_of-order :
    (config : Text) (cs : List Command)
    → commands_of config cs ≡ commands_where (λ c. text_eq c.config config) cs
unfolding commands_of commands_where
commands_of-order config [] = refl
commands_of-order config (c ∷ cs) = rw (commands_of-order config cs) refl

phase_operations-order :
    (m : List (Text × Text)) (cs : List Command) (configs : List Text) (os : List PhaseOperation)
    → phase_operations m cs configs ≡ some os
    → All (KeepsOrder cs) os
unfolding phase_operations
phase_operations-order m cs [] os h =
    let e : [] ≡ os = ground arith in subst (All (KeepsOrder cs)) e tt
phase_operations-order m cs (config ∷ configs) os h =
    elim (Option-cases (phase_operations m cs configs)) [
      | inl n ↦ absurd (ground (arith, n))
      | inr (rest, r) ↦
          let later = phase_operations-order m cs configs rest r in
          elim (Bool-cases (is_nil (commands_of config cs))) [
            | inl e ↦
                (let same : rest ≡ os = ground (arith, r, e) in
                  subst (All (KeepsOrder cs)) same later)
            | inr n ↦ elim (Bool-cases (is_empty (observed_hash config m))) [
              | inl e ↦ absurd (ground (arith, r, n, e))
              | inr o ↦
                  let same : operation_of m cs config ∷ rest ≡ os = ground (arith, r, n, o) in
                  subst (All (KeepsOrder cs)) same (commands_of-order config cs, later)
            ]
          ]
    ]

pub device_operations-order :
    (pf : Platform) (namespace : Text) (results : List RunResult) (d : RolloutDevice)
    (os : List PhaseOperation)
    → device_operations pf namespace results d ≡ some os
    → All (KeepsOrder d.commands) os
unfolding device_operations
device_operations-order pf namespace results d os h =
    phase_operations-order d.observed_state d.commands phase_configs os (ground arith)

five_counts :
    (q : Command → Bool) (cs : List Command)
    → all (λ c. device_change_set_config_allowed c.config) cs ≡ true
    → count_of q cs phase_configs ≡ count_commands q cs
unfolding count_of count_commands commands_of device_change_set_config_allowed
five_counts q [] h = refl
five_counts q (c ∷ cs) h = ground (
  arith,
  five_counts q cs,
  text_eq→eq c.config (codes "system"),
  text_eq→eq c.config (codes "dhcp"),
  text_eq→eq c.config (codes "firewall"),
  text_eq→eq c.config (codes "dropbear"),
  text_eq→eq c.config (codes "sqm"),
)

namespace-allowed :
    (pf : Platform) (names : List Text) (config : Text)
    → any
        (λ n.
          device_change_set_config_allowed (pf.trim_space n) && text_eq (pf.trim_space n) config)
        names
      ≡ true
    → device_change_set_config_allowed config ≡ true
namespace-allowed pf [] config h = ground arith
namespace-allowed pf (n ∷ ns) config h =
    ground (arith, namespace-allowed pf ns config, text_eq→eq (pf.trim_space n) config)

all_allowed :
    (pf : Platform) (namespace : Text) (cs : List Command)
    → all (λ c. has_namespace pf namespace c.config) cs ≡ true
    → all (λ c. device_change_set_config_allowed c.config) cs ≡ true
unfolding has_namespace
all_allowed pf namespace [] h = refl
all_allowed pf namespace (c ∷ cs) h =
    ground
      (arith, namespace-allowed pf (split_commas namespace) c.config, all_allowed pf namespace cs)

-- What holds of the operations that are queued to a device.
pub record IsPhaseOf (results : List RunResult) (d : RolloutDevice) (os : List PhaseOperation)
    : Type 0 where
  pub not_started : any (is_started d.device_id) results ≡ false
  pub every_command : (q : Command → Bool) → count_in q os ≡ count_commands q d.commands
  pub grouped : All IsGrouped os

pub device_operations-IsPhaseOf :
    (pf : Platform) (namespace : Text) (results : List RunResult) (d : RolloutDevice)
    (os : List PhaseOperation)
    → device_operations pf namespace results d ≡ some os
    → IsPhaseOf results d os
unfolding device_operations
device_operations-IsPhaseOf pf namespace results d os h =
    let done : phase_operations d.observed_state d.commands phase_configs ≡ some os =
      ground arith in
    let within : all (λ c. has_namespace pf namespace c.config) d.commands ≡ true = ground arith in
    record {
      not_started = ground arith;
      every_command = λ q.
          phase_operations-count d.observed_state d.commands phase_configs os q done
          ∙ five_counts q d.commands (all_allowed pf namespace d.commands within);
      grouped = phase_operations-IsGrouped d.observed_state d.commands phase_configs os done;
    }

-- A phase that queueNextPhase queues is for the device at the cursor in the order of the plan, of which
-- no result has left WAITING. Its operations hold the commands of the device, each as often as the
-- device does, and each operation has commands, all of its own namespace, and an observed state.
pub next_phase-IsPhaseOf :
    (pf : Platform) (cursor : ℕ) (plan : RolloutPlan) (results : List RunResult) (d : RolloutDevice)
    (os : List PhaseOperation)
    → next_phase pf cursor plan results ≡ some (d, os)
    → (get_elem? (phase_order pf plan.devices) cursor ≡ some d) × IsPhaseOf results d os
unfolding next_phase
next_phase-IsPhaseOf pf cursor plan results d os h =
    elim (Option-cases (get_elem? (phase_order pf plan.devices) cursor)) [
      | inl n ↦ absurd (ground (arith, n))
      | inr (d', e) ↦ elim (Option-cases (device_operations pf plan.namespace results d')) [
        | inl n ↦ absurd (ground (arith, e, n))
        | inr (os', r) ↦
            let same_device : d' ≡ d = ground (arith, e, r) in
            let same_operations : os' ≡ os = ground (arith, e, r) in
            (
              e ∙ ap some same_device,
              subst (λ x. IsPhaseOf results x os) same_device
                  (subst (IsPhaseOf results d') same_operations
                    (device_operations-IsPhaseOf pf plan.namespace results d' os' r)),
            )
      ]
    ]
