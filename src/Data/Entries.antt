-- ===== src/Data/Entries.antt =====
-- A property of every entry of a map, under lookups and writes.
use mathlib.Core.Path.{subst}
use platarium_core.Base.{◌≡◌, sym, arith, some, [], ◌∷◌, All, Bool-cases, inl, inr}
use platarium_core.Data.Ord.{Eq, ◌==◌}
use platarium_core.Data.Map
use platarium_core.Data.Map.{HashMap, get, insert, contains_key}

module _ {ℓ κ μ} {K : Type ℓ} {V : Type κ} ⦃e : Eq K⦄ (P : K × V → Type μ) where
  pub All-get : (m : HashMap K V) (k : K) (v : V) → get m k ≡ some v → All P m → P (k, v)
  All-get [] k v g h = cc
  All-get ((j, w) ∷ m) k v g h = elim (Bool-cases (j == k)) [
    | inl t ↦
        let q : w ≡ v = ground (arith, t, g) in
        subst (λ i. P (i, v)) ((e.same_iff j k).0 t) (subst (λ x. P (j, x)) q h.0)
    | inr f ↦ All-get m k v (rw f at g) h.1
  ]

  pub All-insert : (m : HashMap K V) (k : K) (v : V) → P (k, v) → All P m → All P (insert m k v)
  All-insert [] k v p h = (p, tt)
  All-insert ((j, w) ∷ m) k v p h = elim (Bool-cases (j == k)) [
    | inl t ↦ rw t (subst (λ i. P (i, v)) (sym ((e.same_iff j k).0 t)) p, h.1)
    | inr f ↦ rw f (h.0, All-insert m k v p h.1)
  ]

  pub All-remove : (m : HashMap K V) (k : K) → All P m → All P (Map.remove m k)
  All-remove [] k h = tt
  All-remove ((j, v) ∷ m) k h = elim (Bool-cases (j == k)) [
    | inl t ↦ rw t h.1
    | inr f ↦ rw f (h.0, All-remove m k h.1)
  ]
