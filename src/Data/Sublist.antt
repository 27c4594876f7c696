-- ===== src/Data/Sublist.antt =====
-- Lists that keep some elements of another list, in its order.
use platarium_core.Base.{List, [], ◌∷◌, All}

pub data IsSublist {ℓ} {A : Type ℓ} : List A → List A → Type ℓ where
  done : IsSublist [] []
  keep : {x : A} {xs ys : List A} → IsSublist xs ys → IsSublist (x ∷ xs) (x ∷ ys)
  skip : {y : A} {xs ys : List A} → IsSublist xs ys → IsSublist xs (y ∷ ys)

pub empty-IsSublist {ℓ} : {A : Type ℓ} (ys : List A) → IsSublist [] ys
empty-IsSublist [] = done
empty-IsSublist (y ∷ ys) = skip (empty-IsSublist ys)

-- A list of one that is kept is a member.
pub All-member {ℓ κ} :
    {A : Type ℓ} (P : A → Type κ) {x : A} {ys : List A} → IsSublist (x ∷ []) ys → All P ys → P x
All-member P (keep rest) h = h.0
All-member P (skip rest) h = All-member P rest h.1
