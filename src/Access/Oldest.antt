-- ===== src/Access/Oldest.antt =====
-- The oldest active tenant, which WithAuth (internal/api/middleware/auth.go) falls back to.
use openwrt_controller.Base.{
  ◌<◌, Bool, true, false, List, [], ◌∷◌, Option, none, some, text_eq_refl, count_rows, select_row,
  leb, ◌≡◌, ◌⊎◌, arith, inl, inr, Bool-cases,
}
use openwrt_controller.Access.{Tenant, oldest_active, older, is_active_alias}

pub select_row-count_by {ℓ} :
    {A : Type ℓ} (p q : A → Bool) (xs : List A) (x : A)
    → select_row p xs ≡ some x
    → q x ≡ true
    → 0 < count_rows q xs
unfolding select_row count_rows
select_row-count_by p q [] x h g = absurd (ground arith)
select_row-count_by p q (y ∷ ys) x h g = elim (Bool-cases (p y)) [
  | inl t ↦
      let e : some y ≡ some x = (rw t at h) in let same : y ≡ x = cc in rw same (rw g (omega arith))
  | inr n ↦ omega (arith, select_row-count_by p q ys x (rw n at h) g)
]

older-cases :
    (u : Tenant) (o : Option Tenant) (t : Tenant) → older u o ≡ some t → (u ≡ t) ⊎ (o ≡ some t)
unfolding older
older-cases u none t h = inl cc
older-cases u (some v) t h = elim (Bool-cases (leb u.created_at v.created_at)) [
  | inl low ↦ let e : some u ≡ some t = (rw low at h) in inl cc
  | inr high ↦ inr (rw high at h)
]

active_first :
    (u : Tenant) (us : List Tenant) (t : Tenant)
    → u.is_active ≡ true
    → oldest_active (u ∷ us) ≡ some t
    → older u (oldest_active us) ≡ some t
unfolding oldest_active
active_first u us t live h = ground arith

inactive_first :
    (u : Tenant) (us : List Tenant) (t : Tenant)
    → u.is_active ≡ false
    → oldest_active (u ∷ us) ≡ some t
    → oldest_active us ≡ some t
unfolding oldest_active
inactive_first u us t off h = ground arith

pub oldest_active-is_active :
    (tenants : List Tenant) (t : Tenant)
    → oldest_active tenants ≡ some t
    → 0 < count_rows (is_active_alias t.schema_alias) tenants
unfolding oldest_active older count_rows
oldest_active-is_active [] t h = absurd (ground arith)
oldest_active-is_active (u ∷ us) t h = elim (Bool-cases u.is_active) [
  | inl live ↦ elim (older-cases u (oldest_active us) t (active_first u us t live h)) [
    | inl same ↦ rw same (rw (text_eq_refl t.schema_alias) (ground (arith, live, same)))
    | inr later ↦ omega (arith, oldest_active-is_active us t later)
  ]
  | inr off ↦ omega (arith, oldest_active-is_active us t (inactive_first u us t off h))
]
