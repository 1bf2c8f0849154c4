-- ===== src/Base/Rows.antt =====
-- A table as the list of its rows: SELECT, UPDATE and EXISTS with a condition on the row.
use Prim.Native.Nat.{ℕ, ◌+◌, ◌≤◌, ◌<◌}
use mathlib.Core.Path.{◌≡◌, refl, ap, subst}
use mathlib.Core.Bool.{Bool, true, false}
use mathlib.Core.List.{List, [], ◌∷◌}
use mathlib.Core.Logic.{inl, inr}
use mathlib.Core.Option.{Option, none, some}
use native.Mathlib.Omega.{arith}
use openwrt_controller.Base.Tests.{if◌then◌else◌, Bool-cases}
use openwrt_controller.Base.Lists.{All}

module _ {ℓ} {A : Type ℓ} where
  -- UPDATE t SET f WHERE p.
  unfoldable pub update_rows : (A → Bool) → (A → A) → List A → List A
  update_rows p f [] = []
  update_rows p f (x ∷ xs) = (if p x then f x else x) ∷ update_rows p f xs

  -- The rows that an UPDATE touches.
  unfoldable pub count_rows : (A → Bool) → List A → ℕ
  count_rows p [] = 0
  count_rows p (x ∷ xs) = (if p x then 1 else 0) + count_rows p xs

  -- SELECT * FROM t WHERE p, read by `QueryRow`: the first row, if there is one.
  unfoldable pub select_row : (A → Bool) → List A → Option A
  select_row p [] = none
  select_row p (x ∷ xs) = if p x then some x else select_row p xs

module _ {ℓ} {A : Type ℓ} where
  pub select_row-holds :
      (p : A → Bool) (xs : List A) (x : A) → select_row p xs ≡ some x → p x ≡ true
  unfolding select_row
  select_row-holds p [] x h = ground arith
  select_row-holds p (y ∷ ys) x h = elim (Bool-cases (p y)) [
    | inl t ↦ ground (arith, t)
    | inr f ↦ select_row-holds p ys x (rw f at h)
  ]

  pub select_row-none : (p : A → Bool) (xs : List A) → select_row p xs ≡ none → count_rows p xs ≡ 0
  unfolding select_row count_rows
  select_row-none p [] h = refl
  select_row-none p (y ∷ ys) h = elim (Bool-cases (p y)) [
    | inl t ↦ ground (arith, t)
    | inr f ↦ ground (arith, f, select_row-none p ys (rw f at h))
  ]

  pub update_rows_idle :
      (p : A → Bool) (f : A → A) (xs : List A) → count_rows p xs ≡ 0 → update_rows p f xs ≡ xs
  unfolding count_rows update_rows
  update_rows_idle p f [] h = refl
  update_rows_idle p f (y ∷ ys) h = elim (Bool-cases (p y)) [
    | inl t ↦ absurd (let e = (rw t at h) in omega arith)
    | inr n ↦
        rw n (ap (λ zs. y ∷ zs) (update_rows_idle p f ys (let e = (rw n at h) in omega arith)))
  ]

module _ {ℓ κ} {A : Type ℓ} (P : A → Type κ) where
  pub All-select : (p : A → Bool) (xs : List A) (x : A) → select_row p xs ≡ some x → All P xs → P x
  unfolding select_row
  All-select p [] x h a = absurd (ground arith)
  All-select p (y ∷ ys) x h a = elim (Bool-cases (p y)) [
    | inl t ↦ let e : some y ≡ some x = (rw t at h) in let same : y ≡ x = cc in subst P same a.0
    | inr f ↦ All-select p ys x (rw f at h) a.1
  ]

  pub All-update_rows :
      (p : A → Bool) (f : A → A) (xs : List A)
      → ((x : A) → p x ≡ true → P x → P (f x))
      → All P xs
      → All P (update_rows p f xs)
  unfolding update_rows
  All-update_rows p f [] step a = a
  All-update_rows p f (y ∷ ys) step a = (first, All-update_rows p f ys step a.1)
    where
      first : P (if p y then f y else y)
      first = elim (Bool-cases (p y)) [ inl t ↦ rw t (step y t a.0) | inr n ↦ rw n a.0 ]

module _ {ℓ} {A : Type ℓ} where
  -- Where no row meets the condition, a SELECT finds nothing and an UPDATE touches nothing.
  pub select_row-none_of :
      (p : A → Bool) (xs : List A) → All (λ x. p x ≡ false) xs → select_row p xs ≡ none
  unfolding select_row
  select_row-none_of p [] a = refl
  select_row-none_of p (x ∷ xs) a = rw a.0 (select_row-none_of p xs a.1)

  pub count_rows_none_of :
      (p : A → Bool) (xs : List A) → All (λ x. p x ≡ false) xs → count_rows p xs ≡ 0
  unfolding count_rows
  count_rows_none_of p [] a = refl
  count_rows_none_of p (x ∷ xs) a = rw a.0 (omega (arith, count_rows_none_of p xs a.1))

  pub update_rows_none_of :
      (p : A → Bool) (f : A → A) (xs : List A) → All (λ x. p x ≡ false) xs → update_rows p f xs ≡ xs
  update_rows_none_of p f xs a = update_rows_idle p f xs (count_rows_none_of p xs a)

  -- A condition that selects nothing holds of no row.
  pub none_of_select_row :
      (p : A → Bool) (xs : List A) → select_row p xs ≡ none → All (λ x. p x ≡ false) xs
  unfolding select_row
  none_of_select_row p [] h = tt
  none_of_select_row p (x ∷ xs) h = elim (Bool-cases (p x)) [
    | inl t ↦ absurd (ground (arith, t))
    | inr f ↦ (f, none_of_select_row p xs (rw f at h))
  ]

  -- A row that meets the condition counts.
  pub select_row-count :
      (p : A → Bool) (xs : List A) (x : A) → select_row p xs ≡ some x → 0 < count_rows p xs
  unfolding select_row count_rows
  select_row-count p [] x h = absurd (ground arith)
  select_row-count p (y ∷ ys) x h = elim (Bool-cases (p y)) [
    | inl t ↦ rw t (omega arith)
    | inr f ↦ rw f (omega (arith, select_row-count p ys x (rw f at h)))
  ]

  -- With at most one row for a key `q`, the row that an UPDATE under the key changed is the row that
  -- a later SELECT by the key finds.
  pub select_row-update_rows :
      (p q : A → Bool) (f : A → A) (xs : List A) (x : A)
      → ((y : A) → p y ≡ true → q y ≡ true)
      → ((y : A) → p y ≡ true → q (f y) ≡ true)
      → count_rows q xs ≤ 1
      → select_row p xs ≡ some x
      → select_row q (update_rows p f xs) ≡ some (f x)
  unfolding select_row update_rows count_rows
  select_row-update_rows p q f [] x pq pf c h = absurd (ground arith)
  select_row-update_rows p q f (y ∷ ys) x pq pf c h = elim (Bool-cases (p y)) [
    | inl t ↦
        let e : some y ≡ some x = (rw t at h) in
        let same : y ≡ x = cc in rw t (rw (pf y t) (ap (λ z. some (f z)) same))
    | inr n ↦ elim (Bool-cases (q y)) [
      | inl k ↦
          let later : select_row p ys ≡ some x = (rw n at h) in
          let here : 1 + count_rows q ys ≤ 1 = (rw k at c) in
          absurd (omega (arith, here, later_counts later))
      | inr m ↦
          let later : select_row p ys ≡ some x = (rw n at h) in
          let rest : 0 + count_rows q ys ≤ 1 = (rw m at c) in
          rw n (rw m (select_row-update_rows p q f ys x pq pf (omega (arith, rest)) later))
    ]
  ]
    where
      count_mono : (zs : List A) → count_rows p zs ≤ count_rows q zs
      count_mono = elim [
        | [] ↦ omega arith
        | z ∷ (zs → ih) ↦ elim (Bool-cases (p z)) [
          | inl t ↦ rw t (rw (pq z t) (omega (arith, ih)))
          | inr n ↦ rw n (omega (arith, ih))
        ]
      ]

      later_counts : select_row p ys ≡ some x → 0 < count_rows q ys
      later_counts l = omega (arith, select_row-count p ys x l, count_mono ys)
