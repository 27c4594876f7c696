-- ===== src/Data/Map.antt =====
-- `HashMap<K, V>` as an association list: each key stands once, and the list's order is that of
-- iteration, which the program must not depend on.
use platarium_core.Base.{
  ℕ, ◌+◌, ◌≤◌, ◌≡◌, refl, Bool, true, false, Option, none, some, List, [], ◌∷◌, map, arith,
  if◌then◌else◌,
}
use platarium_core.Data.Ord.{Eq, ◌==◌}

abbrev pub HashMap {ℓ κ} : Type ℓ → Type κ → Type (ℓ ⊔ κ)
HashMap K V = List (K × V)

-- `iter()`, `keys()` and `values()`
module _ {ℓ κ} {K : Type ℓ} {V : Type κ} where
  abbrev pub values : HashMap K V → List V
  values = map (λ e. e.1)

  abbrev pub keys : HashMap K V → List K
  keys = map (λ e. e.0)

module _ {ℓ κ} {K : Type ℓ} {V : Type κ} ⦃e : Eq K⦄ where
  abbrev pub get : HashMap K V → K → Option V
  get [] k = none
  get ((j, v) ∷ m) k = if j == k then some v else get m k

  abbrev pub contains_key : HashMap K V → K → Bool
  contains_key [] k = false
  contains_key ((j, v) ∷ m) k = if j == k then true else contains_key m k

  abbrev pub insert : HashMap K V → K → V → HashMap K V
  insert [] k v = (k, v) ∷ []
  insert ((j, w) ∷ m) k v = if j == k then (j, v) ∷ m else (j, w) ∷ insert m k v

  abbrev pub remove : HashMap K V → K → HashMap K V
  remove [] k = []
  remove ((j, v) ∷ m) k = if j == k then m else (j, v) ∷ remove m k

  pub get-insert :
      (m : HashMap K V) (k : K) (v : V) (j : K)
      → get (insert m k v) j ≡ (if k == j then some v else get m j)
  get-insert [] k v j = refl
  get-insert ((i, w) ∷ m) k v j =
      ground (arith, e.same_iff i k, e.same_iff i j, e.same_iff k j, get-insert m k v j)

  pub get-insert_same : (m : HashMap K V) (k : K) (v : V) → get (insert m k v) k ≡ some v
  get-insert_same m k v = ground (arith, e.same_iff k k, get-insert m k v k)

  -- No key stands twice.
  abbrev pub IsMap : HashMap K V → Type 0
  IsMap [] = Unit
  IsMap ((k, v) ∷ m) = (contains_key m k ≡ false) × IsMap m

  pub contains_key-insert :
      (m : HashMap K V) (k : K) (v : V) (j : K)
      → contains_key (insert m k v) j ≡ (if k == j then true else contains_key m j)
  contains_key-insert [] k v j = refl
  contains_key-insert ((i, w) ∷ m) k v j =
      ground (arith, e.same_iff i k, e.same_iff i j, e.same_iff k j, contains_key-insert m k v j)

  pub insert-IsMap : (m : HashMap K V) (k : K) (v : V) → IsMap m → IsMap (insert m k v)
  insert-IsMap [] k v h = (refl, tt)
  insert-IsMap ((j, w) ∷ m) k v h =
      ground
        (arith, insert-IsMap m k v h.1, contains_key-insert m k v j, e.same_iff j k, e.same_iff k j)

  pub contains_key-remove :
      (m : HashMap K V) (k j : K)
      → IsMap m
      → contains_key (remove m k) j ≡ (if k == j then false else contains_key m j)
  contains_key-remove [] k j h = ground arith
  contains_key-remove ((i, w) ∷ m) k j h =
      ground (arith, e.same_iff i k, e.same_iff i j, e.same_iff k j, contains_key-remove m k j h.1)

  pub remove-IsMap : (m : HashMap K V) (k : K) → IsMap m → IsMap (remove m k)
  remove-IsMap [] k h = tt
  remove-IsMap ((j, w) ∷ m) k h =
      ground (arith, remove-IsMap m k h.1, contains_key-remove m k j h.1)

  pub contains_key-get : (m : HashMap K V) (k : K) → contains_key m k ≡ false → get m k ≡ none
  contains_key-get [] k h = refl
  contains_key-get ((j, v) ∷ m) k h = ground (arith, contains_key-get m k)

  pub get-remove :
      (m : HashMap K V) (k j : K)
      → IsMap m
      → get (remove m k) j ≡ (if k == j then none else get m j)
  get-remove [] k j h = ground arith
  get-remove ((i, w) ∷ m) k j h = ground (
    arith,
    e.same_iff i k,
    e.same_iff i j,
    e.same_iff k j,
    get-remove m k j h.1,
    contains_key-get m k,
  )

-- `get(k).copied().unwrap_or(0)`, and the sum of the entries whose key passes a test.
module _ {ℓ} {K : Type ℓ} where
  abbrev pub total_by : (K → Bool) → HashMap K ℕ → ℕ
  total_by p [] = 0
  total_by p ((k, v) ∷ m) = if p k then v + total_by p m else total_by p m

module _ {ℓ} {K : Type ℓ} ⦃e : Eq K⦄ where
  abbrev pub get_or_zero : HashMap K ℕ → K → ℕ
  get_or_zero m k = elim (get m k) [ none ↦ 0 | some v ↦ v ]

  pub get_or_zero-insert :
      (m : HashMap K ℕ) (k : K) (v : ℕ) (j : K)
      → get_or_zero (insert m k v) j ≡ (if k == j then v else get_or_zero m j)
  get_or_zero-insert m k v j = ground (arith, get-insert m k v j)

  -- An insertion changes the sum by what the key held before and holds now.
  pub total_by-insert :
      (p : K → Bool) (m : HashMap K ℕ) (k : K) (v : ℕ)
      → total_by p (insert m k v) + (if p k then get_or_zero m k else 0)
        ≡ total_by p m + (if p k then v else 0)
  total_by-insert p [] k v = ground arith
  total_by-insert p ((j, w) ∷ m) k v = ground (arith, e.same_iff j k, total_by-insert p m k v)

  pub get_or_zero-le-total_by :
      (p : K → Bool) (m : HashMap K ℕ) (k : K) → p k ≡ true → get_or_zero m k ≤ total_by p m
  get_or_zero-le-total_by p [] k h = ground arith
  get_or_zero-le-total_by p ((j, w) ∷ m) k h =
      ground (arith, e.same_iff j k, get_or_zero-le-total_by p m k h)
