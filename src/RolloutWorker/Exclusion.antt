-- ===== src/RolloutWorker/Exclusion.antt =====
-- Live leases of a site over the calls of several workers (internal/database/rollout_worker.go).
use openwrt_controller.Base.{
  ℕ, ◌+◌, ◌≤◌, ◌≡◌, refl, true, false, List, [], ◌∷◌, Text, All, any, arith, text_eq, text_eq_iff,
  Bool-cases, inl, inr, update_rows, count_rows, some, count_rows_mono, count_rows-update_le,
  count_rows-update_keeps, count_rows-update_rows, Option-cases,
}
use openwrt_controller.Schema.{RunResult, RolloutRun, Tables}
use openwrt_controller.RolloutWorker.Lease.{
  RolloutLease, holds_site, is_claimable, first_by_generation, has_id, take_lease, claim_lease,
  claim_queued_rollout, is_held_by, fenced_update, set_cursor, set_results, set_lease,
  update_rollout_worker_cursor, update_rollout_worker_results, renew_rollout_lease,
}
use openwrt_controller.RolloutWorker.First.{All-first, rows_of_first}

-- The calls of the workers, with the token that a claim would give out.
pub data WorkerCall : Type 0 where
  claim : Text → ℕ → WorkerCall
  renew : RolloutLease → ℕ → WorkerCall
  move_cursor : RolloutLease → ℕ → WorkerCall
  write_results : RolloutLease → List RunResult → WorkerCall

unfoldable pub call : ℕ → Text → WorkerCall → Tables → Tables
call now schema (claim token duration) t = (claim_queued_rollout now token schema duration t).1
call now schema (renew l duration) t = (renew_rollout_lease now schema l duration t).1
call now schema (move_cursor l n) t = (update_rollout_worker_cursor now schema l n t).1
call now schema (write_results l rs) t = (update_rollout_worker_results now schema l rs t).1

-- Calls in order, each after a time that has passed since the one before: the time and the tables.
unfoldable pub calls : ℕ → Text → List (ℕ × WorkerCall) → Tables → ℕ × Tables
calls now schema [] t = (now, t)
calls now schema ((elapsed, c) ∷ cs) t =
    calls (now + elapsed) schema cs (call (now + elapsed) schema c t)

-- The ids are the keys of the table, and no site has two running leases.
pub record IsExclusive (now : ℕ) (t : Tables) : Type 0 where
  pub keys : (id : Text) → count_rows (has_id id) t.rollout_runs ≤ 1
  pub holders : (site : Text) → count_rows (holds_site now site) t.rollout_runs ≤ 1

holds_earlier :
    (now later : ℕ) (site : Text) (r : RolloutRun)
    → now ≤ later
    → holds_site later site r ≡ true
    → holds_site now site r ≡ true
unfolding holds_site
holds_earlier now later site r le h = ground arith

-- As time passes leases only run out.
later-IsExclusive :
    (now later : ℕ) (t : Tables) → now ≤ later → IsExclusive now t → IsExclusive later t
later-IsExclusive now later t le x = record {
  keys = x.keys;
  holders = λ site. omega (
    arith,
    count_rows_mono (holds_site later site) (holds_site now site) t.rollout_runs
        (λ r h. holds_earlier now later site r le h),
    x.holders site,
  );
}

-- An UPDATE under the fence that keeps id, site and state.
record KeepsSite (now : ℕ) (f : RolloutRun → RolloutRun) : Type 0 where
  same_id : (r : RolloutRun) → (f r).id ≡ r.id
  same_site : (r : RolloutRun) → (f r).site_id ≡ r.site_id

held_holds :
    (now : ℕ) (l : RolloutLease) (f : RolloutRun → RolloutRun) (site : Text) (r : RolloutRun)
    → (f r).site_id ≡ r.site_id
    → is_held_by now l r ≡ true
    → holds_site now site (f r) ≡ true
    → holds_site now site r ≡ true
unfolding is_held_by holds_site
held_holds now l f site r same h k = ground arith

held_rows :
    (now : ℕ) (l : RolloutLease) (f : RolloutRun → RolloutRun) (site : Text) (rs : List RolloutRun)
    → KeepsSite now f
    → All
        (λ r.
          is_held_by now l r ≡ true
          → holds_site now site (f r) ≡ true
          → holds_site now site r ≡ true)
        rs
held_rows now l f site [] k = tt
held_rows now l f site (r ∷ rs) k =
    (held_holds now l f site r (k.same_site r), held_rows now l f site rs k)

fenced-IsExclusive :
    (now : ℕ) (l : RolloutLease) (f : RolloutRun → RolloutRun) (t : Tables)
    → KeepsSite now f
    → IsExclusive now t
    → IsExclusive now (fenced_update now l f t).1
unfolding fenced_update
fenced-IsExclusive now l f t k x = ground (arith, updated)
  where
    updated :
        IsExclusive now
          (record t { rollout_runs = update_rows (is_held_by now l) f t.rollout_runs })
    updated = record {
      keys = λ id.
          rw
            (count_rows-update_rows (has_id id) (is_held_by now l) f t.rollout_runs
              (λ r. rw (k.same_id r)))
            (x.keys id);
      holders = λ site. omega (
        arith,
        count_rows-update_keeps (holds_site now site) (is_held_by now l) f t.rollout_runs
            (held_rows now l f site t.rollout_runs k),
        x.holders site,
      );
    }

not_any :
    (now : ℕ) (site : Text) (rs : List RolloutRun)
    → any (holds_site now site) rs ≡ false
    → count_rows (holds_site now site) rs ≡ 0
unfolding count_rows
not_any now site [] h = refl
not_any now site (r ∷ rs) h = ground (arith, not_any now site rs (ground arith))

elsewhere :
    (now until : ℕ) (token site id : Text) (r : RolloutRun) (rs : List RolloutRun)
    → text_eq r.site_id site ≡ false
    → All (λ x. has_id id x ≡ true → x ≡ r) rs
    → All
        (λ x.
          has_id id x ≡ true
          → holds_site now site (take_lease now token until x) ≡ true
          → holds_site now site x ≡ true)
        rs
unfolding holds_site take_lease
elsewhere now until token site id r [] ne a = tt
elsewhere now until token site id r (x ∷ xs) ne a =
    ((λ h k. ground (arith, a.0 h)), elsewhere now until token site id r xs ne a.1)

claim-holders :
    (now until : ℕ) (token site : Text) (t : Tables) (r : RolloutRun)
    → IsExclusive now t
    → first_by_generation (is_claimable now t.rollout_runs) t.rollout_runs ≡ some r
    → count_rows
        (holds_site now site)
        (update_rows (has_id r.id) (take_lease now token until) t.rollout_runs)
      ≤ 1
claim-holders now until token site t r x found = elim (Bool-cases (text_eq r.site_id site)) [
  | inr ne ↦ omega (
    arith,
    count_rows-update_keeps (holds_site now site) (has_id r.id) (take_lease now token until)
        t.rollout_runs
        (elsewhere now until token site r.id r t.rollout_runs ne
          (rows_of_first (is_claimable now t.rollout_runs) t.rollout_runs r (x.keys r.id) found)),
    x.holders site,
  )
  | inl here ↦
      let claimable =
        (All-first (λ z. Unit {0}) (is_claimable now t.rollout_runs) t.rollout_runs r
          (all_trivial t.rollout_runs) found).1 in
      let same : r.site_id ≡ site = (text_eq_iff r.site_id site).0 here in
      let free : any (holds_site now site) t.rollout_runs ≡ false =
        unfold is_claimable in ground (arith, claimable, same) in
      omega (
        arith,
        count_rows-update_le (holds_site now site) (has_id r.id) (take_lease now token until)
            t.rollout_runs,
        not_any now site t.rollout_runs free,
        x.keys r.id,
      )
]
  where
    all_trivial : (rs : List RolloutRun) → All (λ z. Unit {0}) rs
    all_trivial = elim [ [] ↦ tt | r ∷ (rs → ih) ↦ (tt, ih) ]

claim-IsExclusive :
    (now duration : ℕ) (token schema : Text) (t : Tables)
    → IsExclusive now t
    → IsExclusive now (claim_queued_rollout now token schema duration t).1
unfolding claim_queued_rollout claim_lease
claim-IsExclusive now duration token schema t x =
    elim (Option-cases (first_by_generation (is_claimable now t.rollout_runs) t.rollout_runs)) [
      | inl nothing ↦ ground (arith, nothing, x)
      | inr (r, found) ↦ ground (arith, found, x, taken r found)
    ]
  where
    taken :
        (r : RolloutRun)
        → first_by_generation (is_claimable now t.rollout_runs) t.rollout_runs ≡ some r
        → IsExclusive now (record t {
          rollout_runs =
              update_rows (has_id r.id) (take_lease now token (now + duration)) t.rollout_runs;
        })
    taken r found = record {
      keys = λ id.
          rw
            (count_rows-update_rows (has_id id) (has_id r.id)
              (take_lease now token (now + duration)) t.rollout_runs
              (λ y. unfold take_lease in refl))
            (x.keys id);
      holders = λ site. claim-holders now (now + duration) token site t r x found;
    }

call-IsExclusive :
    (now : ℕ) (schema : Text) (c : WorkerCall) (t : Tables)
    → IsExclusive now t
    → IsExclusive now (call now schema c t)
unfolding call renew_rollout_lease update_rollout_worker_cursor update_rollout_worker_results
    set_lease set_cursor set_results
call-IsExclusive now schema (claim token duration) t x =
    claim-IsExclusive now duration token schema t x
call-IsExclusive now schema (renew l duration) t x = ground (
  arith,
  x,
  fenced-IsExclusive now l (set_lease now (now + duration)) t
      (record { same_id = λ r. refl; same_site = λ r. refl }) x,
)
call-IsExclusive now schema (move_cursor l n) t x = ground (
  arith,
  x,
  fenced-IsExclusive now l (set_cursor now n) t
      (record { same_id = λ r. refl; same_site = λ r. refl }) x,
)
call-IsExclusive now schema (write_results l rs) t x = ground (
  arith,
  x,
  fenced-IsExclusive now l (set_results now rs) t
      (record { same_id = λ r. refl; same_site = λ r. refl }) x,
)

-- From tables in which ids are unique and no site has two live leases, any claims, renewals, cursor
-- moves and result writes of any workers, at any later times, leave at most one live lease per site.
pub calls-IsExclusive :
    (now : ℕ) (schema : Text) (cs : List (ℕ × WorkerCall)) (t : Tables)
    → IsExclusive now t
    → IsExclusive (calls now schema cs t).0 (calls now schema cs t).1
unfolding calls
calls-IsExclusive now schema [] t x = x
calls-IsExclusive now schema ((elapsed, c) ∷ cs) t x =
    calls-IsExclusive (now + elapsed) schema cs (call (now + elapsed) schema c t) (
      call-IsExclusive (now + elapsed) schema c t
        (later-IsExclusive now (now + elapsed) t (omega arith) x))
