-- ===== src/Data/Sort/Order.antt =====
-- What a sort promises: a rearrangement in ascending order, and, where the keys are distinct, one
-- that does not depend on the order of its input.
use mathlib.Core.List.{Permᴰ}
use mathlib.Core.List.Permᴰ
use platarium_core.Base.{
  ◌≡◌, ◌∙◌, refl, sym, All-imp, true, ◌≢◌, inl, inr, List, [], ◌∷◌, arith, All, Bool-cases,
}
use mathlib.Core.Path.{subst, subst₂}
use platarium_core.Data.Ord.{Ord}
use platarium_core.Data.Sort.{insert_sorted, sort_by}

module _ {ℓ κ} {A : Type ℓ} {K : Type κ} (key : A → K) where
  -- No two elements have the same key.
  abbrev pub HasDistinctKeys : List A → Type (ℓ ⊔ κ)
  HasDistinctKeys [] = Unit
  HasDistinctKeys (x ∷ xs) = All (λ y. key x ≢ key y) xs × HasDistinctKeys xs

module _ {ℓ κ} {A : Type ℓ} {K : Type κ} ⦃o : Ord K⦄ (key : A → K) where
  -- The two ways to insert two elements agree, unless their keys are equal.
  insert_sorted_comm :
      (x y : A) (l : List A)
      → key x ≢ key y
      → insert_sorted key x (insert_sorted key y l) ≡ insert_sorted key y (insert_sorted key x l)
  unfolding insert_sorted
  insert_sorted_comm x y [] h =
      ground (arith, o.le_total (key x) (key y), o.le_antisymm (key x) (key y))
  insert_sorted_comm x y (z ∷ l) h = ground (
    arith,
    o.le_total (key x) (key y),
    o.le_antisymm (key x) (key y),
    o.le_total (key x) (key z),
    o.le_total (key y) (key z),
    o.le_trans (key x) (key y) (key z),
    o.le_trans (key y) (key x) (key z),
    o.le_trans (key x) (key z) (key y),
    o.le_trans (key y) (key z) (key x),
    insert_sorted_comm x y l h,
  )

  pub All-perm {μ} : (P : A → Type μ) {l l' : List A} → Permᴰ l l' → All P l → All P l'
  All-perm P Permᴰ.nil h = tt
  All-perm P (Permᴰ.cons e p) h = (subst P e h.0, All-perm P p h.1)
  All-perm P (Permᴰ.swap e f) h = (subst P f h.1.0, (subst P e h.0, h.1.1))
  All-perm P (Permᴰ.trans p q) h = All-perm P q (All-perm P p h)

  HasDistinctKeys-perm :
      {l l' : List A} → Permᴰ l l' → HasDistinctKeys key l → HasDistinctKeys key l'
  HasDistinctKeys-perm Permᴰ.nil h = tt
  HasDistinctKeys-perm (Permᴰ.cons {a = a} {b = b} {l₁ = l₁} {l₂ = l₂} e p) h = (
    subst (λ c. All (λ y. key c ≢ key y) l₂) e (All-perm (λ y. key a ≢ key y) p h.0),
    HasDistinctKeys-perm p h.1,
  )
  HasDistinctKeys-perm (Permᴰ.swap {a = a} {b = b} {l = l} e f) h = (
    subst₂ (λ c d. (key c ≢ key d) × All (λ y. key c ≢ key y) l) f e ((λ q. h.0.0 (sym q)), h.1.0),
    (subst (λ c. All (λ y. key c ≢ key y) l) e h.0.1, h.1.1),
  )
  HasDistinctKeys-perm (Permᴰ.trans p q) h = HasDistinctKeys-perm q (HasDistinctKeys-perm p h)

  -- With distinct keys the sorted list does not depend on the order of the input.
  pub sort_by-perm :
      {l l' : List A} → Permᴰ l l' → HasDistinctKeys key l → sort_by key l ≡ sort_by key l'
  unfolding sort_by
  sort_by-perm Permᴰ.nil h = refl
  sort_by-perm (Permᴰ.cons e p) h = cc (sort_by-perm p h.1)
  sort_by-perm (Permᴰ.swap {a = a} {b = b} {l = l} e f) h =
      cc (insert_sorted_comm a b (sort_by key l) h.0.0)
  sort_by-perm (Permᴰ.trans p q) h = sort_by-perm p h ∙ sort_by-perm q (HasDistinctKeys-perm p h)

  pub insert_sorted-perm : (x : A) (l : List A) → Permᴰ (insert_sorted key x l) (x ∷ l)
  unfolding insert_sorted
  insert_sorted-perm x [] = Permᴰ.refl (x ∷ [])
  insert_sorted-perm x (y ∷ l) = elim (Bool-cases (o.le (key x) (key y))) [
    | inl e ↦ rw e (Permᴰ.refl (x ∷ y ∷ l))
    | inr e ↦ rw e (Permᴰ.trans (Permᴰ.cons refl (insert_sorted-perm x l)) (Permᴰ.swap refl refl))
  ]

  -- A sort rearranges.
  pub sort_by-Perm : (l : List A) → Permᴰ (sort_by key l) l
  unfolding sort_by
  sort_by-Perm [] = Permᴰ.nil
  sort_by-Perm (x ∷ l) =
      Permᴰ.trans (insert_sorted-perm x (sort_by key l)) (Permᴰ.cons refl (sort_by-Perm l))

  abbrev pub IsAscending : List A → Type ℓ
  IsAscending [] = Unit
  IsAscending (x ∷ xs) = All (λ y. o.le (key x) (key y) ≡ true) xs × IsAscending xs

  insert_sorted-IsAscending :
      (x : A) (l : List A) → IsAscending l → IsAscending (insert_sorted key x l)
  unfolding insert_sorted
  insert_sorted-IsAscending x [] h = (tt, tt)
  insert_sorted-IsAscending x (y ∷ l) h = elim (Bool-cases (o.le (key x) (key y))) [
    | inl e ↦ rw e ((e, All-imp (λ z k. o.le_trans (key x) (key y) (key z) e k) l h.0), (h.0, h.1))
    | inr e ↦ rw e (
      All-perm (λ z. o.le (key y) (key z) ≡ true) (Permᴰ.symm (insert_sorted-perm x l))
          (o.le_total (key x) (key y) e, h.0),
      insert_sorted-IsAscending x l h.1,
    )
  ]

  pub sort_by-IsAscending : (l : List A) → IsAscending (sort_by key l)
  unfolding sort_by
  sort_by-IsAscending [] = tt
  sort_by-IsAscending (x ∷ l) = insert_sorted-IsAscending x (sort_by key l) (sort_by-IsAscending l)
