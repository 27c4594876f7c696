-- ===== src/Data/Sort.antt =====
-- `sort_by` and `sort` of slices: a stable sort by a key.
pub mod Order
pub mod Plain
use mathlib.Core.List.{Permᴰ}
use mathlib.Core.List.Permᴰ
use platarium_core.Base.{
  ℕ, suc, ◌≡◌, refl, true, false, ◌≢◌, inl, inr, List, [], ◌∷◌, arith, if◌then◌else◌, All, length,
  Bool-cases,
}
use platarium_core.Data.Ord.{Ord}

module _ {ℓ κ} {A : Type ℓ} {K : Type κ} ⦃o : Ord K⦄ (key : A → K) where
  -- in front of the first element whose key is not smaller
  unfoldable pub insert_sorted : A → List A → List A
  insert_sorted x [] = x ∷ []
  insert_sorted x (y ∷ ys) = if o.le (key x) (key y) then x ∷ y ∷ ys else y ∷ insert_sorted x ys

  unfoldable pub sort_by : List A → List A
  unfolding insert_sorted
  sort_by [] = []
  sort_by (x ∷ xs) = insert_sorted x (sort_by xs)
