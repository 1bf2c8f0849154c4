-- ===== src/Base/RowKeys.antt =====
-- Tables in which at most one row meets a condition `q`, as for a primary key.
use Prim.Native.Nat.{◌+◌, ◌≤◌, ◌<◌}
use mathlib.Core.Path.{◌≡◌, refl, subst}
use mathlib.Core.Bool.{Bool, true, false}
use mathlib.Core.List.{List, [], ◌∷◌}
use mathlib.Core.Logic.{inl, inr}
use mathlib.Core.Option.{none, some}
use native.Mathlib.Omega.{arith}
use openwrt_controller.Base.Tests.{Bool-cases}
use openwrt_controller.Base.Lists.{All}
use openwrt_controller.Base.Rows.{update_rows, count_rows, select_row, select_row-none}

module _ {ℓ} {A : Type ℓ} (q : A → Bool) where
  -- An UPDATE that keeps the key keeps the count.
  pub count_rows-update_rows :
      (p : A → Bool) (f : A → A) (xs : List A)
      → ((y : A) → q (f y) ≡ q y)
      → count_rows q (update_rows p f xs) ≡ count_rows q xs
  unfolding count_rows update_rows
  count_rows-update_rows p f [] k = refl
  count_rows-update_rows p f (y ∷ ys) k = elim (Bool-cases (p y)) [
    | inl t ↦ rw t (rw (k y) (rw (count_rows-update_rows p f ys k)))
    | inr n ↦ rw n (rw (count_rows-update_rows p f ys k))
  ]

  no_rows-none :
      (p : A → Bool) (xs : List A)
      → ((y : A) → p y ≡ true → q y ≡ true)
      → count_rows q xs ≡ 0
      → select_row p xs ≡ none
  unfolding select_row count_rows
  no_rows-none p [] pq c = refl
  no_rows-none p (y ∷ ys) pq c = elim (Bool-cases (p y)) [
    | inl t ↦ let e : 1 + count_rows q ys ≡ 0 = (rw (pq y t) at c) in absurd (omega arith)
    | inr n ↦ rw n (elim (Bool-cases (q y)) [
      | inl k ↦ let e : 1 + count_rows q ys ≡ 0 = (rw k at c) in absurd (omega arith)
      | inr m ↦
          let e : 0 + count_rows q ys ≡ 0 = (rw m at c) in no_rows-none p ys pq (omega (arith, e))
    ])
  ]

  -- Where the one row of the key does not meet `p`, which asks for the key, no row does.
  pub select_row-none_by_key :
      (p : A → Bool) (xs : List A) (x : A)
      → ((y : A) → p y ≡ true → q y ≡ true)
      → count_rows q xs ≤ 1
      → select_row q xs ≡ some x
      → p x ≡ false
      → select_row p xs ≡ none
  unfolding select_row count_rows
  select_row-none_by_key p [] x pq c s n = refl
  select_row-none_by_key p (y ∷ ys) x pq c s n = elim (Bool-cases (q y)) [
    | inl k ↦
        let e : some y ≡ some x = (rw k at s) in
        let same : x ≡ y = cc in
        let n' : p y ≡ false = subst (λ z. p z ≡ false) same n in
        let d : 1 + count_rows q ys ≤ 1 = (rw k at c) in
        rw n' (no_rows-none p ys pq (omega (arith, d)))
    | inr m ↦
        let d : 0 + count_rows q ys ≤ 1 = (rw m at c) in
        let s' : select_row q ys ≡ some x = (rw m at s) in
        elim (Bool-cases (p y)) [
          | inl t ↦ absurd (ground (arith, pq y t))
          | inr f ↦ rw f (select_row-none_by_key p ys x pq (omega (arith, d)) s' n)
        ]
  ]

  -- Where some row meets `p`, it is the one row of the key.
  pub select_row-by_key :
      (p : A → Bool) (xs : List A) (x : A)
      → ((y : A) → p y ≡ true → q y ≡ true)
      → count_rows q xs ≤ 1
      → select_row q xs ≡ some x
      → 0 < count_rows p xs
      → p x ≡ true
  select_row-by_key p xs x pq c s h = elim (Bool-cases (p x)) [
    | inl t ↦ t
    | inr n ↦ absurd (omega (arith, select_row-none p xs (select_row-none_by_key p xs x pq c s n)))
  ]

module _ {ℓ} {A : Type ℓ} where
  -- A condition that implies another on every row counts no more rows.
  pub count_rows_mono :
      (p q : A → Bool) (xs : List A)
      → ((x : A) → p x ≡ true → q x ≡ true)
      → count_rows p xs ≤ count_rows q xs
  unfolding count_rows
  count_rows_mono p q [] pq = omega arith
  count_rows_mono p q (x ∷ xs) pq = elim (Bool-cases (p x)) [
    | inl t ↦ rw t (rw (pq x t) (omega (arith, count_rows_mono p q xs pq)))
    | inr n ↦ rw n (omega (arith, count_rows_mono p q xs pq))
  ]

  -- An UPDATE makes at most the rows that it touches meet a condition.
  pub count_rows-update_le :
      (p q : A → Bool) (f : A → A) (xs : List A)
      → count_rows p (update_rows q f xs) ≤ count_rows p xs + count_rows q xs
  unfolding count_rows update_rows
  count_rows-update_le p q f [] = omega arith
  count_rows-update_le p q f (x ∷ xs) = elim (Bool-cases (q x)) [
    | inl t ↦ rw t (ground (arith, count_rows-update_le p q f xs))
    | inr n ↦ rw n (omega (arith, count_rows-update_le p q f xs))
  ]

  -- An UPDATE under which no touched row comes to meet a condition adds no row to it.
  pub count_rows-update_keeps :
      (p q : A → Bool) (f : A → A) (xs : List A)
      → All (λ x. q x ≡ true → p (f x) ≡ true → p x ≡ true) xs
      → count_rows p (update_rows q f xs) ≤ count_rows p xs
  unfolding count_rows update_rows
  count_rows-update_keeps p q f [] a = omega arith
  count_rows-update_keeps p q f (x ∷ xs) a = elim (Bool-cases (q x)) [
    | inl t ↦ rw t (ground (arith, a.0 t, count_rows-update_keeps p q f xs a.1))
    | inr n ↦ rw n (omega (arith, count_rows-update_keeps p q f xs a.1))
  ]

  no_rows-All : (q : A → Bool) (xs : List A) → count_rows q xs ≡ 0 → All (λ x. q x ≡ false) xs
  unfolding count_rows
  no_rows-All q [] c = tt
  no_rows-All q (x ∷ xs) c = (ground arith, no_rows-All q xs (ground arith))

  All-vacuous :
      (q : A → Bool) (r : A) (xs : List A)
      → All (λ x. q x ≡ false) xs
      → All (λ x. q x ≡ true → x ≡ r) xs
  All-vacuous q r [] a = tt
  All-vacuous q r (x ∷ xs) a = ((λ t. absurd (ground (arith, a.0))), All-vacuous q r xs a.1)

  -- With at most one row for a key, every row of the key is the one that is found.
  pub rows_of_key :
      (q : A → Bool) (xs : List A) (r : A)
      → count_rows q xs ≤ 1
      → select_row q xs ≡ some r
      → All (λ x. q x ≡ true → x ≡ r) xs
  unfolding count_rows select_row
  rows_of_key q [] r c s = tt
  rows_of_key q (x ∷ xs) r c s = elim (Bool-cases (q x)) [
    | inl t ↦
        let e : some x ≡ some r = (rw t at s) in
        let d : 1 + count_rows q xs ≤ 1 = (rw t at c) in
        ((λ k. cc), All-vacuous q r xs (no_rows-All q xs (omega (arith, d))))
    | inr n ↦
        let e : select_row q xs ≡ some r = (rw n at s) in
        let d : 0 + count_rows q xs ≤ 1 = (rw n at c) in
        ((λ k. absurd (ground (arith, n))), rows_of_key q xs r (omega (arith, d)) e)
  ]
