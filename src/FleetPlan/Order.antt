-- ===== src/FleetPlan/Order.antt =====
-- The order of the devices in sequentialFleetRolloutPhases (internal/api/handlers/
-- site_orchestrator.go) and in queueNextPhase (internal/rolloutworker/worker.go).
use openwrt_controller.Base.{
  ℕ, suc, ◌+◌, List, [], ◌∷◌, map, some, codes, All, get_elem?, text_eq, if◌then◌else◌, ◌≡◌, refl,
  arith, ap, sym, ◌∙◌, subst, inl, inr, Bool-cases,
}
use openwrt_controller.Schema.{Platform}
use openwrt_controller.RolloutWorker.Phase.{
  RolloutDevice, is_gateway, device_before, insert_device, phase_order,
}
use openwrt_controller.FleetPlan.{
  RenderResult, result_of, rollout_results_from_draft, result_before, indexed, insert_index,
  sort_indices, sequential_fleet_rollout_phases,
}

-- The same pairs, sorted as the worker sorts the devices.
insert_pair : Platform → ℕ × RolloutDevice → List (ℕ × RolloutDevice) → List (ℕ × RolloutDevice)
insert_pair pf d [] = d ∷ []
insert_pair pf d (e ∷ es) =
    let rest = insert_pair pf d es in if device_before pf e.1 d.1 then e ∷ rest else d ∷ (e ∷ es)

sort_pairs : Platform → List (ℕ × RolloutDevice) → List (ℕ × RolloutDevice)
unfolding insert_pair
sort_pairs pf [] = []
sort_pairs pf (d ∷ ds) = insert_pair pf d (sort_pairs pf ds)

abbrev seconds : List (ℕ × RolloutDevice) → List RolloutDevice
seconds [] = []
seconds (d ∷ ds) = d.1 ∷ seconds ds

abbrev as_results : List (ℕ × RolloutDevice) → List (ℕ × RenderResult)
as_results [] = []
as_results (d ∷ ds) = (d.0, result_of d.1) ∷ as_results ds

insert_pair-seconds :
    (pf : Platform) (d : ℕ × RolloutDevice) (es : List (ℕ × RolloutDevice))
    → seconds (insert_pair pf d es) ≡ insert_device pf d.1 (seconds es)
unfolding insert_pair insert_device
insert_pair-seconds pf d [] = refl
insert_pair-seconds pf d (e ∷ es) = elim (Bool-cases (device_before pf e.1 d.1)) [
  | inl b ↦ rw b (ap (λ z. e.1 ∷ z) (insert_pair-seconds pf d es))
  | inr b ↦ rw b refl
]

sort_pairs-seconds :
    (pf : Platform) (ds : List (ℕ × RolloutDevice))
    → seconds (sort_pairs pf ds) ≡ phase_order pf (seconds ds)
unfolding sort_pairs phase_order
sort_pairs-seconds pf [] = refl
sort_pairs-seconds pf (d ∷ ds) =
    insert_pair-seconds pf d (sort_pairs pf ds)
    ∙ ap (insert_device pf d.1) (sort_pairs-seconds pf ds)

-- The handler reads the role as the worker does.
unfoldable pub IsRead : Platform → RolloutDevice → Type 0
IsRead pf d = is_gateway pf d ≡ text_eq d.role (codes "Gateway")

before_agrees :
    (pf : Platform) (d e : RolloutDevice)
    → IsRead pf d
    → IsRead pf e
    → device_before pf d e ≡ result_before (result_of d) (result_of e)
unfolding device_before result_before IsRead
before_agrees pf d e h k = rw h (rw k refl)

insert_pair-results :
    (pf : Platform) (d : ℕ × RolloutDevice) (es : List (ℕ × RolloutDevice))
    → IsRead pf d.1
    → All {A = ℕ × RolloutDevice} (λ e. IsRead pf e.1) es
    → as_results (insert_pair pf d es) ≡ insert_index (d.0, result_of d.1) (as_results es)
unfolding insert_pair insert_index
insert_pair-results pf d [] h a = refl
insert_pair-results pf d (e ∷ es) h a = elim (Bool-cases (device_before pf e.1 d.1)) [
  | inl b ↦
      let c = sym (before_agrees pf e.1 d.1 a.0 h) ∙ b in
      rw b (rw c (ap (λ z. (e.0, result_of e.1) ∷ z) (insert_pair-results pf d es h a.1)))
  | inr b ↦ let c = sym (before_agrees pf e.1 d.1 a.0 h) ∙ b in rw b (rw c refl)
]

insert_pair-All {κ} :
    (P : ℕ × RolloutDevice → Type κ) (pf : Platform) (d : ℕ × RolloutDevice)
    (es : List (ℕ × RolloutDevice))
    → P d
    → All P es
    → All P (insert_pair pf d es)
unfolding insert_pair
insert_pair-All P pf d [] h a = (h, tt)
insert_pair-All P pf d (e ∷ es) h a = elim (Bool-cases (device_before pf e.1 d.1)) [
  | inl b ↦ rw b (a.0, insert_pair-All P pf d es h a.1)
  | inr b ↦ rw b (h, a)
]

sort_pairs-All {κ} :
    (P : ℕ × RolloutDevice → Type κ) (pf : Platform) (ds : List (ℕ × RolloutDevice))
    → All P ds
    → All P (sort_pairs pf ds)
unfolding sort_pairs
sort_pairs-All P pf [] a = tt
sort_pairs-All P pf (d ∷ ds) a = insert_pair-All P pf d _ a.0 (sort_pairs-All P pf ds a.1)

sort_pairs-results :
    (pf : Platform) (ds : List (ℕ × RolloutDevice))
    → All {A = ℕ × RolloutDevice} (λ e. IsRead pf e.1) ds
    → as_results (sort_pairs pf ds) ≡ sort_indices (as_results ds)
unfolding sort_pairs sort_indices
sort_pairs-results pf [] a = refl
sort_pairs-results pf (d ∷ ds) a =
    insert_pair-results pf d (sort_pairs pf ds) a.0 (sort_pairs-All (λ e. IsRead pf e.1) pf ds a.1)
    ∙ ap (insert_index (d.0, result_of d.1)) (sort_pairs-results pf ds a.1)

as_results-indexed :
    (k : ℕ) (ds : List RolloutDevice)
    → as_results (indexed k ds) ≡ indexed k (rollout_results_from_draft ds)
as_results-indexed k [] = refl
as_results-indexed k (d ∷ ds) = ap (λ z. (k, result_of d) ∷ z) (as_results-indexed (suc k) ds)

seconds-indexed : (k : ℕ) (ds : List RolloutDevice) → seconds (indexed k ds) ≡ ds
seconds-indexed k [] = refl
seconds-indexed k (d ∷ ds) = ap (λ z. d ∷ z) (seconds-indexed (suc k) ds)

indexed-IsRead :
    (pf : Platform) (k : ℕ) (ds : List RolloutDevice)
    → All (IsRead pf) ds
    → All {A = ℕ × RolloutDevice} (λ e. IsRead pf e.1) (indexed k ds)
indexed-IsRead pf k [] a = tt
indexed-IsRead pf k (d ∷ ds) a = (a.0, indexed-IsRead pf (suc k) ds a.1)

indexed-found :
    (full : List RolloutDevice) (k : ℕ) (ds : List RolloutDevice)
    → ((i : ℕ) → get_elem? full (k + i) ≡ get_elem? ds i)
    → All {A = ℕ × RolloutDevice} (λ e. get_elem? full e.0 ≡ some e.1) (indexed k ds)
indexed-found full k [] h = tt
indexed-found full k (d ∷ ds) h =
    let here : k + 0 ≡ k = omega arith in
    (
      subst (λ z. get_elem? full z ≡ some d) here (h 0),
      indexed-found full (suc k) ds (λ i.
          let next : k + suc i ≡ suc k + i = omega arith in
          subst (λ z. get_elem? full z ≡ get_elem? ds i) next (h (suc i))),
    )

found_phases :
    (full : List RolloutDevice) (ps : List (ℕ × RolloutDevice))
    → All {A = ℕ × RolloutDevice} (λ e. get_elem? full e.0 ≡ some e.1) ps
    → map (map (get_elem? full)) (map (λ d. d.0 ∷ []) (as_results ps))
      ≡ map (λ d. some d ∷ []) (seconds ps)
found_phases full [] a = refl
found_phases full (p ∷ ps) a = rw a.0 (ap (λ z. (some p.1 ∷ []) ∷ z) (found_phases full ps a.1))

-- The phases that the handler plans for a draft are the devices of the draft one by one, in the order
-- in which the worker takes them, where the worker's EqualFold reads each role as a gateway's
-- exactly if it is written Gateway.
pub handler_order_is_the_workers :
    (pf : Platform) (ds : List RolloutDevice)
    → All (IsRead pf) ds
    → map (map (get_elem? ds)) (sequential_fleet_rollout_phases (rollout_results_from_draft ds))
      ≡ map (λ d. some d ∷ []) (phase_order pf ds)
unfolding sequential_fleet_rollout_phases
handler_order_is_the_workers pf ds read =
    let pairs = indexed 0 ds in
    let sorted = sort_pairs-results pf pairs (indexed-IsRead pf 0 ds read) in
    let found =
      sort_pairs-All (λ e. get_elem? ds e.0 ≡ some e.1) pf pairs
        (indexed-found ds 0 ds (λ i. ap (get_elem? ds) (omega arith))) in
    let order = sort_pairs-seconds pf pairs ∙ ap (phase_order pf) (seconds-indexed 0 ds) in
    let results = sorted ∙ ap sort_indices (as_results-indexed 0 ds) in
    ap (λ z. map (map (get_elem? ds)) (map (λ d. d.0 ∷ []) z)) (sym results)
    ∙ (found_phases ds (sort_pairs pf pairs) found ∙ ap (map (λ d. some d ∷ [])) order)
