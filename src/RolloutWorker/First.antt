-- ===== src/RolloutWorker/First.antt =====
-- The row that ORDER BY generation LIMIT 1 gives to ClaimQueuedRollout
-- (internal/database/rollout_worker.go).
use openwrt_controller.Base.{
  ◌≤◌, ◌≡◌, Bool, true, false, List, [], ◌∷◌, All, arith, text_eq_refl, Bool-cases, inl, inr,
  count_rows, select_row, some, rows_of_key, subst, sym, ap, ◌∙◌, leb, Option-cases,
  none_of_select_row,
}
use openwrt_controller.Schema.{RolloutRun}
use openwrt_controller.RolloutWorker.Lease.{first_by_generation, has_id}

-- The run that ORDER BY generation LIMIT 1 gives meets the condition, and all that every run does.
pub All-first :
    (P : RolloutRun → Type 0) (p : RolloutRun → Bool) (rs : List RolloutRun) (r : RolloutRun)
    → All P rs
    → first_by_generation p rs ≡ some r
    → P r × (p r ≡ true)
unfolding first_by_generation
All-first P p [] r a h = absurd (ground arith)
All-first P p (x ∷ xs) r a h = elim (Bool-cases (p x)) [
  | inr n ↦ All-first P p xs r a.1 (rw n at h)
  | inl t ↦ elim (Option-cases (first_by_generation p xs)) [
    | inl nothing ↦
        let same : x ≡ r = ground (arith, t, nothing) in
        (subst P same a.0, subst (λ z. p z ≡ true) same t)
    | inr (s, found) ↦ elim (Bool-cases (leb x.generation s.generation)) [
      | inl lower ↦
          let same : x ≡ r = ground (arith, t, found, lower) in
          (subst P same a.0, subst (λ z. p z ≡ true) same t)
      | inr higher ↦
          let same : s ≡ r = ground (arith, t, found, higher) in
          All-first P p xs r a.1 (found ∙ ap some same)
    ]
  ]
]

pub rows_of_first :
    (p : RolloutRun → Bool) (rs : List RolloutRun) (r : RolloutRun)
    → count_rows (has_id r.id) rs ≤ 1
    → first_by_generation p rs ≡ some r
    → All (λ x. has_id r.id x ≡ true → x ≡ r) rs
rows_of_first p rs r key found = elim (Option-cases (select_row (has_id r.id) rs)) [
  | inl nothing ↦ absurd (
      let n =
        (All-first (λ x. has_id r.id x ≡ false) p rs r (none_of_select_row (has_id r.id) rs nothing)
          found).0 in
      ground (arith, n, text_eq_refl r.id))
  | inr (s, row) ↦
      let rows = rows_of_key (has_id r.id) rs s key row in
      let same : r ≡ s =
        (All-first (λ x. has_id r.id x ≡ true → x ≡ s) p rs r rows found).0 (text_eq_refl r.id) in
      subst (λ z. All (λ x. has_id r.id x ≡ true → x ≡ z) rs) (sym same) rows
]
