-- ===== src/Data/Sort/Plain.antt =====
-- `sort()` of values by their own order: equal values cannot be told apart, so the result never
-- depends on the order of the input.
use mathlib.Core.List.{Permᴰ}
use platarium_core.Base.{
  ℕ, ◌≡◌, ◌∙◌, refl, Bool, true, false, List, [], ◌∷◌, arith, if◌then◌else◌, ltb, ◌==◌, length, suc,
}
use platarium_core.Data.Ord.{Ord}
use platarium_core.Data.Sort.{insert_sorted, sort_by}
use platarium_core.Data.Sort.Order.{sort_by-Perm}

module _ {ℓ} {A : Type ℓ} ⦃o : Ord A⦄ where
  unfoldable pub sort : List A → List A
  sort xs = sort_by (λ x. x) xs

  insert_sorted_comm_self :
      (x y : A) (l : List A)
      → insert_sorted (λ a. a) x (insert_sorted (λ a. a) y l)
        ≡ insert_sorted (λ a. a) y (insert_sorted (λ a. a) x l)
  unfolding insert_sorted
  insert_sorted_comm_self x y [] = ground (arith, o.le_total x y, o.le_antisymm x y)
  insert_sorted_comm_self x y (z ∷ l) = ground (
    arith,
    o.le_total x y,
    o.le_antisymm x y,
    o.le_total x z,
    o.le_total y z,
    o.le_trans x y z,
    o.le_trans y x z,
    o.le_trans x z y,
    o.le_trans y z x,
    insert_sorted_comm_self x y l,
  )

  pub sort-perm : {l l' : List A} → Permᴰ l l' → sort l ≡ sort l'
  unfolding sort sort_by
  sort-perm Permᴰ.nil = refl
  sort-perm (Permᴰ.cons e p) = cc (sort-perm p)
  sort-perm (Permᴰ.swap {a = a} {b = b} {l = l} e f) = cc (insert_sorted_comm_self a b (sort l))
  sort-perm (Permᴰ.trans p q) = sort-perm p ∙ sort-perm q

  pub sort-Perm : (l : List A) → Permᴰ (sort l) l
  unfolding sort
  sort-Perm l = sort_by-Perm (λ x. x) l

  insert_sorted-length : (x : A) (l : List A) → length (insert_sorted (λ a. a) x l) ≡ suc (length l)
  unfolding insert_sorted
  insert_sorted-length x [] = refl
  insert_sorted-length x (y ∷ l) = ground (arith, insert_sorted-length x l)

  pub sort-length : (l : List A) → length (sort l) ≡ length l
  unfolding sort sort_by
  sort-length [] = refl
  sort-length (x ∷ l) = omega (arith, sort-length l, insert_sorted-length x (sort l))

-- `[u8; 32]::cmp`
abbrev pub bytes_le : List ℕ → List ℕ → Bool
bytes_le [] ys = true
bytes_le (x ∷ xs) [] = false
bytes_le (x ∷ xs) (y ∷ ys) = if ltb x y then true else if x == y then bytes_le xs ys else false

pub bytes_le_total : (a b : List ℕ) → bytes_le a b ≡ false → bytes_le b a ≡ true
bytes_le_total [] b h = ground arith
bytes_le_total (x ∷ a) [] h = refl
bytes_le_total (x ∷ a) (y ∷ b) h = ground (arith, bytes_le_total a b)

pub bytes_le_antisymm : (a b : List ℕ) → bytes_le a b ≡ true → bytes_le b a ≡ true → a ≡ b
bytes_le_antisymm [] [] h k = refl
bytes_le_antisymm [] (y ∷ b) h k = ground arith
bytes_le_antisymm (x ∷ a) [] h k = ground arith
bytes_le_antisymm (x ∷ a) (y ∷ b) h k = ground (arith, bytes_le_antisymm a b)

pub bytes_le_trans :
    (a b c : List ℕ) → bytes_le a b ≡ true → bytes_le b c ≡ true → bytes_le a c ≡ true
bytes_le_trans [] b c h k = refl
bytes_le_trans (x ∷ a) [] c h k = ground arith
bytes_le_trans (x ∷ a) (y ∷ b) [] h k = ground arith
bytes_le_trans (x ∷ a) (y ∷ b) (z ∷ c) h k = ground (arith, bytes_le_trans a b c)

instance abbrev pub bytes_ord : Ord (List ℕ)
bytes_ord = record {
  le = bytes_le;
  le_total = bytes_le_total;
  le_antisymm = bytes_le_antisymm;
  le_trans = bytes_le_trans;
}
