-- ===== src/FleetPlan/Phases.antt =====
-- The phases of fleetRolloutPhases (internal/api/handlers/site_orchestrator.go).
use openwrt_controller.Base.{
  ℕ, zero, suc, ◌+◌, ◌-◌, ◌≤◌, ◌<◌, false, List, [], ◌∷◌, ◌++◌, none, some, All, get_elem?, length,
  ltb, ltb→lt, ◌==◌, if◌then◌else◌, ◌≡◌, refl, arith, ap, sym, subst, inl, inr, Bool-cases,
}
use openwrt_controller.FleetPlan.{max_concurrency, index_run, phases_from, fleet_rollout_phases}

-- The indices of all phases, in order.
unfoldable pub flat {ℓ} : {A : Type ℓ} → List (List A) → List A
flat [] = []
flat (p ∷ ps) = p ++ flat ps

-- A phase that runs at most as many devices as the limit, and at least one.
unfoldable pub IsPhase : List ℕ → Type 0
IsPhase p = (0 < length p) × (length p ≤ max_concurrency)

index_run-length : (n start : ℕ) → length (index_run n start) ≡ n
unfolding index_run
index_run-length zero start = refl
index_run-length (suc n) start = ap suc (index_run-length n (suc start))

unfold_zero : (start : ℕ) → [] ≡ index_run 0 start
unfolding index_run
unfold_zero start = refl

index_run-append :
    (n m start : ℕ) → index_run (n + m) start ≡ index_run n start ++ index_run m (start + n)
unfolding index_run
index_run-append zero m start =
    let e : 0 + m ≡ m = omega arith in let f : start + 0 ≡ start = omega arith in rw e (rw f refl)
index_run-append (suc n) m start =
    let e : suc n + m ≡ suc (n + m) = omega arith in
    let f : start + suc n ≡ suc start + n = omega arith in
    rw e (rw f (ap (λ z. start ∷ z) (index_run-append n m (suc start))))

-- The end of the phase that starts at an index.
abbrev end_of : ℕ → ℕ → ℕ
end_of start count = if ltb count (start + max_concurrency) then count else start + max_concurrency

first_of_run :
    (start count : ℕ)
    → start < count
    → index_run (count - start) start
      ≡ index_run (end_of start count - start) start
        ++ index_run (count - (start + max_concurrency)) (start + max_concurrency)
unfolding index_run
first_of_run start count h = elim (Bool-cases (ltb count (start + max_concurrency))) [
  | inl last ↦
      let gone : count - (start + max_concurrency) ≡ 0 = ground (arith, last) in
      let same : (count - start) + 0 ≡ count - start = omega arith in
      rw last (
        rw gone (
          subst (λ z. index_run z start ≡ index_run (count - start) start ++ []) same
            (index_run-append (count - start) 0 start)))
  | inr more ↦
      let four : start + max_concurrency - start ≡ max_concurrency = omega arith in
      let split : max_concurrency + (count - (start + max_concurrency)) ≡ count - start =
        ground (arith, more) in
      rw more (
        rw four (
          subst
            (λ z.
              index_run z start
              ≡ index_run max_concurrency start
                ++ index_run (count - (start + max_concurrency)) (start + max_concurrency))
            split (index_run-append max_concurrency (count - (start + max_concurrency)) start)))
]

phases_from-flat :
    (fuel start count : ℕ)
    → count ≤ start + fuel
    → flat (phases_from fuel start count) ≡ index_run (count - start) start
unfolding phases_from flat
phases_from-flat zero start count h =
    let e : count - start ≡ 0 = omega (arith, h) in rw e (unfold_zero start)
phases_from-flat (suc fuel) start count h = elim (Bool-cases (ltb start count)) [
  | inl more ↦
      let ih = phases_from-flat fuel (start + max_concurrency) count (omega (arith, h)) in
      rw more (rw ih (sym (first_of_run start count (ltb→lt start count more))))
  | inr over ↦
      let e : count - start ≡ 0 = ground (arith, over) in rw over (rw e (unfold_zero start))
]

run_to_end-IsPhase :
    (start count : ℕ) → start < count → IsPhase (index_run (end_of start count - start) start)
unfolding IsPhase
run_to_end-IsPhase start count h =
    rw (index_run-length (end_of start count - start) start) (ground (arith, h))

phases_from-IsPhase : (fuel start count : ℕ) → All IsPhase (phases_from fuel start count)
unfolding phases_from
phases_from-IsPhase zero start count = tt
phases_from-IsPhase (suc fuel) start count = elim (Bool-cases (ltb start count)) [
  | inl more ↦ rw more (
    run_to_end-IsPhase start count (ltb→lt start count more),
    phases_from-IsPhase fuel (start + max_concurrency) count,
  )
  | inr over ↦ rw over tt
]

-- The loop over the phases of a fleet ends for every number of devices with phases that hold each
-- index below the number once, in order; the first phase is the first device alone, and each phase
-- has at least one device and at most as many as may run at once.
pub fleet_phases_cover_the_fleet :
    (count : ℕ)
    → (flat (fleet_rollout_phases count) ≡ index_run count 0)
      × All IsPhase (fleet_rollout_phases count)
      × (get_elem? (fleet_rollout_phases count) 0 ≡ (if count == 0 then none else some (0 ∷ [])))
unfolding fleet_rollout_phases flat index_run IsPhase
fleet_phases_cover_the_fleet zero = (refl, tt, refl)
fleet_phases_cover_the_fleet (suc n) =
    let some_device : (suc n == 0) ≡ false = ground arith in
    let less : suc n - 1 ≡ n = omega arith in
    let rest = phases_from-flat (suc n) 1 (suc n) (omega arith) in
    rw some_device (
      ap (λ z. 0 ∷ z) (subst (λ z. flat (phases_from (suc n) 1 (suc n)) ≡ index_run z 1) less rest),
      ((omega arith, omega arith), phases_from-IsPhase (suc n) 1 (suc n)),
      refl,
    )
