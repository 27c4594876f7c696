-- ===== src/Data/Rebuild.antt =====
-- A map that is rebuilt from its entries, in whatever order they come.
use mathlib.Core.List.{Permᴰ}
use mathlib.Core.List.Permᴰ
use platarium_core.Base.{
  ℕ, ◌≡◌, ◌∙◌, refl, sym, ap, false, List, [], ◌∷◌, map, if◌then◌else◌, arith,
}
use platarium_core.Data.Ord.{Eq, ◌==◌, Ord}
use platarium_core.Data.Map.{HashMap, get_or_zero, get_or_zero-insert, insert, contains_key, IsMap}
use platarium_core.Data.Sort.{insert_sorted, sort_by}

-- Sorting commutes with a change of the elements that keeps the key.
module _ {ℓ κ μ} {A : Type ℓ} {B : Type κ} {K : Type μ} ⦃o : Ord K⦄ (key : B → K) (f : A → B) where
  insert_sorted-map :
      (x : A) (l : List A)
      → insert_sorted key (f x) (map f l) ≡ map f (insert_sorted (λ a. key (f a)) x l)
  unfolding insert_sorted
  insert_sorted-map x [] = refl
  insert_sorted-map x (y ∷ l) = ground (arith, insert_sorted-map x l)

  pub sort_by-map : (l : List A) → sort_by key (map f l) ≡ map f (sort_by (λ a. key (f a)) l)
  unfolding sort_by
  sort_by-map [] = refl
  sort_by-map (x ∷ l) =
      ap (insert_sorted key (f x)) (sort_by-map l)
      ∙ insert_sorted-map x (sort_by (λ a. key (f a)) l)

module _ {ℓ} {K : Type ℓ} ⦃e : Eq K⦄ where
  -- one `insert` after another
  abbrev pub insert_all : HashMap K ℕ → HashMap K ℕ → HashMap K ℕ
  insert_all m [] = m
  insert_all m ((k, v) ∷ rows) = insert_all (insert m k v) rows

  get_or_zero-absent : (m : HashMap K ℕ) (k : K) → contains_key m k ≡ false → get_or_zero m k ≡ 0
  get_or_zero-absent [] k h = refl
  get_or_zero-absent ((j, v) ∷ m) k h = ground (arith, h, get_or_zero-absent m k)

  pub get_or_zero-insert_all :
      (rows m : HashMap K ℕ) (k : K)
      → IsMap rows
      → get_or_zero (insert_all m rows) k
        ≡ (if contains_key rows k then get_or_zero rows k else get_or_zero m k)
  get_or_zero-insert_all [] m k h = refl
  get_or_zero-insert_all ((j, v) ∷ rows) m k h = ground (
    arith,
    h,
    e.same_iff j k,
    get_or_zero-insert_all rows (insert m j v) k h.1,
    get_or_zero-insert m j v k,
  )

  pub get_or_zero-rebuilt :
      (rows : HashMap K ℕ) (k : K)
      → IsMap rows
      → get_or_zero (insert_all [] rows) k ≡ get_or_zero rows k
  get_or_zero-rebuilt rows k h =
      ground (arith, get_or_zero-insert_all rows [] k h, get_or_zero-absent rows k)

  contains_key-perm :
      {m m' : HashMap K ℕ} → Permᴰ m m' → (k : K) → contains_key m k ≡ contains_key m' k
  contains_key-perm Permᴰ.nil k = refl
  contains_key-perm (Permᴰ.cons {a = a} {b = b} q p) k =
      ground (arith, ap (λ x. x.0 == k) q, contains_key-perm p k)
  contains_key-perm (Permᴰ.swap {a = a} {b = b} q r) k =
      ground (arith, ap (λ x. x.0 == k) q, ap (λ x. x.0 == k) r)
  contains_key-perm (Permᴰ.trans p q) k = contains_key-perm p k ∙ contains_key-perm q k

  IsMap-perm : {m m' : HashMap K ℕ} → Permᴰ m m' → IsMap m → IsMap m'
  IsMap-perm Permᴰ.nil h = tt
  IsMap-perm (Permᴰ.cons {a = a} {b = b} {l₂ = l'} q p) h = (
    ap (λ x. contains_key l' x.0) (sym q) ∙ sym (contains_key-perm p a.0) ∙ h.0,
    IsMap-perm p h.1,
  )
  IsMap-perm (Permᴰ.swap {a = a} {b = b} {a' = a'} {b' = b'} {l = l} q r) h =
      rw (← q, ← r)
        (ground (arith, h, e.same_iff a.0 b.0, e.same_iff b.0 a.0), (ground (arith, h), h.1.1))
  IsMap-perm (Permᴰ.trans p q) h = IsMap-perm q (IsMap-perm p h)

  get_or_zero-perm :
      {m m' : HashMap K ℕ} → Permᴰ m m' → IsMap m → (k : K) → get_or_zero m k ≡ get_or_zero m' k
  get_or_zero-perm Permᴰ.nil h k = refl
  get_or_zero-perm (Permᴰ.cons {a = a} {b = b} q p) h k =
      rw (← q) (ground (arith, get_or_zero-perm p h.1 k))
  get_or_zero-perm (Permᴰ.swap {a = a} {b = b} {a' = a'} {b' = b'} {l = l} q r) h k =
      rw (← q, ← r) (ground (arith, h, e.same_iff a.0 b.0, e.same_iff b.0 k, e.same_iff a.0 k))
  get_or_zero-perm (Permᴰ.trans p q) h k =
      get_or_zero-perm p h k ∙ get_or_zero-perm q (IsMap-perm p h) k

  -- A map rebuilt from a rearrangement of its entries has the same values.
  pub get_or_zero-insert_all_perm :
      (m rows : HashMap K ℕ)
      → Permᴰ rows m
      → IsMap m
      → (k : K) → get_or_zero (insert_all [] rows) k ≡ get_or_zero m k
  get_or_zero-insert_all_perm m rows p h k =
      let ordered = IsMap-perm (Permᴰ.symm p) h in
      get_or_zero-rebuilt rows k ordered ∙ get_or_zero-perm p ordered k
