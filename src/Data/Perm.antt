-- ===== src/Data/Perm.antt =====
-- What respects the rearrangement of a list.
use mathlib.Core.List.{Permᴰ}
use mathlib.Core.List.Permᴰ
use platarium_core.Base.{
  ◌≡◌, ◌∙◌, refl, sym, ap, Bool, List, map, filter, ◌++◌, [], ◌∷◌, All, ℕ, sum_by, arith, length,
  Bool-cases, inl, inr,
}

-- Rearranging a list rearranges its image and its selection.
module _ {ℓ κ} {A : Type ℓ} {B : Type κ} (f : A → B) where
  pub map-perm : {l l' : List A} → Permᴰ l l' → Permᴰ (map f l) (map f l')
  map-perm Permᴰ.nil = Permᴰ.nil
  map-perm (Permᴰ.cons e p) = Permᴰ.cons (ap f e) (map-perm p)
  map-perm (Permᴰ.swap e e') = Permᴰ.swap (ap f e) (ap f e')
  map-perm (Permᴰ.trans p q) = Permᴰ.trans (map-perm p) (map-perm q)

module _ {ℓ} {A : Type ℓ} (p : A → Bool) where
  pub filter-perm : {l l' : List A} → Permᴰ l l' → Permᴰ (filter p l) (filter p l')
  filter-perm Permᴰ.nil = Permᴰ.nil
  filter-perm (Permᴰ.cons {a = a} {b = b} e q) = elim (Bool-cases (p a)) [
    | inl h ↦ rw (h, sym (ap p e) ∙ h) (Permᴰ.cons e (filter-perm q))
    | inr h ↦ rw (h, sym (ap p e) ∙ h) (filter-perm q)
  ]
  filter-perm (Permᴰ.swap {a = a} {b = b} {a' = a'} {b' = b'} {l = l} e e') =
      rw (← e, ← e')
        (elim (Bool-cases (p a)) [
          | inl h ↦ elim (Bool-cases (p b)) [
            | inl k ↦ rw (h, k) (Permᴰ.swap refl refl)
            | inr k ↦ rw (h, k) (Permᴰ.refl _)
          ]
          | inr h ↦ rw h (Permᴰ.refl _)
        ])
  filter-perm (Permᴰ.trans q r) = Permᴰ.trans (filter-perm q) (filter-perm r)

-- A rearrangement of the front, and what a front keeps of a predicate.
module _ {ℓ} {A : Type ℓ} where
  pub append-perm : {l l' : List A} → Permᴰ l l' → (zs : List A) → Permᴰ (l ++ zs) (l' ++ zs)
  append-perm Permᴰ.nil zs = Permᴰ.refl zs
  append-perm (Permᴰ.cons e p) zs = Permᴰ.cons e (append-perm p zs)
  append-perm (Permᴰ.swap e f) zs = Permᴰ.swap e f
  append-perm (Permᴰ.trans p q) zs = Permᴰ.trans (append-perm p zs) (append-perm q zs)

  pub All-prefix {κ} : (P : A → Type κ) (xs ys : List A) → All P (xs ++ ys) → All P xs
  All-prefix P [] ys h = tt
  All-prefix P (x ∷ xs) ys h = (h.0, All-prefix P xs ys h.1)

  -- A sum of the elements' numbers.
  pub sum_by-perm : (f : A → ℕ) {l l' : List A} → Permᴰ l l' → sum_by f l ≡ sum_by f l'
  sum_by-perm f Permᴰ.nil = refl
  sum_by-perm f (Permᴰ.cons e p) = omega (arith, sum_by-perm f p, ap f e)
  sum_by-perm f (Permᴰ.swap e e') = omega (arith, ap f e, ap f e')
  sum_by-perm f (Permᴰ.trans p q) = sum_by-perm f p ∙ sum_by-perm f q

  pub perm-length : {l l' : List A} → Permᴰ l l' → length l ≡ length l'
  perm-length Permᴰ.nil = refl
  perm-length (Permᴰ.cons e p) = omega (arith, perm-length p)
  perm-length (Permᴰ.swap e e') = refl
  perm-length (Permᴰ.trans p q) = perm-length p ∙ perm-length q
