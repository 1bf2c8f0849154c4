-- ===== src/Base/RowPairs.antt =====
-- Two tables with the same rows in the same places, each old row related to the new one.
use mathlib.Core.Path.{◌≡◌}
use mathlib.Core.Bool.{Bool, true}
use mathlib.Core.List.{List, [], ◌∷◌}
use mathlib.Core.Logic.{inl, inr}
use openwrt_controller.Base.Tests.{Bool-cases, if◌then◌else◌}
use openwrt_controller.Base.Rows.{update_rows}

pub data Pointwise {ℓ κ} {A : Type ℓ} (R : A → A → Type κ) : List A → List A → Type (ℓ ⊔ κ) where
  nil : Pointwise R [] []
  cons : {x y : A} {xs ys : List A} → R x y → Pointwise R xs ys → Pointwise R (x ∷ xs) (y ∷ ys)

module _ {ℓ κ} {A : Type ℓ} (R : A → A → Type κ) where
  pub Pointwise-refl : ((x : A) → R x x) → (xs : List A) → Pointwise R xs xs
  Pointwise-refl r [] = nil
  Pointwise-refl r (x ∷ xs) = cons (r x) (Pointwise-refl r xs)

  pub Pointwise-trans :
      ((x y z : A) → R x y → R y z → R x z)
      → {xs ys zs : List A} → Pointwise R xs ys
      → Pointwise R ys zs
      → Pointwise R xs zs
  Pointwise-trans t nil nil = nil
  Pointwise-trans t (cons r p) (cons s q) = cons (t _ _ _ r s) (Pointwise-trans t p q)

  pub Pointwise-update_rows :
      (p : A → Bool) (f : A → A)
      → ((x : A) → R x x)
      → ((x : A) → p x ≡ true → R x (f x))
      → (xs : List A) → Pointwise R xs (update_rows p f xs)
  unfolding update_rows
  Pointwise-update_rows p f r step [] = nil
  Pointwise-update_rows p f r step (x ∷ xs) = cons first (Pointwise-update_rows p f r step xs)
    where
      first : R x (if p x then f x else x)
      first = elim (Bool-cases (p x)) [ inl y ↦ rw y (step x y) | inr n ↦ rw n (r x) ]
