-- ===== src/Data/BigEndian.antt =====
-- `to_be_bytes`, `from_be_bytes`, and the equality of byte strings.
use platarium_core.Base.{
  ℕ, zero, suc, ◌+◌, ◌*◌, ◌/◌, ◌%◌, ◌<◌, ◌≡◌, ◌↔◌, ◌∙◌, refl, Bool, true, false, ◌&&◌, List, [],
  ◌∷◌, ◌++◌, length, length-append, ◌==◌, arith,
}
use platarium_core.Data.Ord.{Eq}

-- The lowest `n` bytes of a number, the highest first.
unfoldable pub to_be_bytes : ℕ → ℕ → List ℕ
to_be_bytes zero v = []
to_be_bytes (suc n) v = to_be_bytes n (v / 256) ++ (v % 256) ∷ []

unfoldable pub from_be_bytes : ℕ → List ℕ → ℕ
from_be_bytes acc [] = acc
from_be_bytes acc (b ∷ bs) = from_be_bytes (acc * 256 + b) bs

from_be_bytes-append :
    (acc : ℕ) (xs ys : List ℕ)
    → from_be_bytes acc (xs ++ ys) ≡ from_be_bytes (from_be_bytes acc xs) ys
unfolding from_be_bytes
from_be_bytes-append acc [] ys = refl
from_be_bytes-append acc (x ∷ xs) ys = from_be_bytes-append (acc * 256 + x) xs ys

abbrev pow256 : ℕ → ℕ
pow256 zero = 1
pow256 (suc n) = 256 * pow256 n

pub from_be_bytes-to_be_bytes :
    (n acc v : ℕ) → v < pow256 n → from_be_bytes acc (to_be_bytes n v) ≡ acc * pow256 n + v
unfolding from_be_bytes to_be_bytes
from_be_bytes-to_be_bytes zero acc v h = omega arith
from_be_bytes-to_be_bytes (suc n) acc v h =
    from_be_bytes-append acc (to_be_bytes n (v / 256)) ((v % 256) ∷ [])
    ∙ omega (arith, from_be_bytes-to_be_bytes n acc (v / 256) (omega arith))

pub length-to_be_bytes : (n v : ℕ) → length (to_be_bytes n v) ≡ n
unfolding to_be_bytes
length-to_be_bytes zero v = refl
length-to_be_bytes (suc n) v = omega (
  arith,
  length-append (to_be_bytes n (v / 256)) ((v % 256) ∷ []),
  length-to_be_bytes n (v / 256),
)

abbrev pub bytes_same : List ℕ → List ℕ → Bool
bytes_same [] [] = true
bytes_same [] (y ∷ ys) = false
bytes_same (x ∷ xs) [] = false
bytes_same (x ∷ xs) (y ∷ ys) = x == y && bytes_same xs ys

pub bytes_same_iff : (xs ys : List ℕ) → (bytes_same xs ys ≡ true) ↔ (xs ≡ ys)
bytes_same_iff [] [] = ground arith
bytes_same_iff [] (y ∷ ys) = ground arith
bytes_same_iff (x ∷ xs) [] = ground arith
bytes_same_iff (x ∷ xs) (y ∷ ys) = ground (arith, bytes_same_iff xs ys)

instance abbrev pub bytes_eq : Eq (List ℕ)
bytes_eq = record { same = bytes_same; same_iff = bytes_same_iff }
