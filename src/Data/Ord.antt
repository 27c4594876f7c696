-- ===== src/Data/Ord.antt =====
-- The bounds `Eq` and `Ord` on keys, with the laws that the traits ask for.
use Prim.Native.Nat.{Ordering}
use Prim.Native.Nat.Ordering.{gt}
use Prim.Native.String.{String, compare as compare_string, ◌∷◌ as str_cons, [] as str_nil}
use Prim.Native.String.compare
use text.Mathlib.Text.{◌==◌ as str_eq}
use text.Mathlib.TextEquality.{eq_iff, codes_equal}
use platarium_core.Base.{
  ℕ, ◌≡◌, ◌↔◌, Bool, true, false, not, ◌&&◌, ◌||◌, arith, leb, ◌==◌ as nat_beq, ==_iff, refl,
}

-- `PartialEq`: the test decides equality.
pub record Eq {κ} (K : Type κ) : Type κ where
  pub same : K → K → Bool
  pub same_iff : (j k : K) → (same j k ≡ true) ↔ (j ≡ k)

instance abbrev pub string_eq : Eq String
string_eq = record { same = str_eq; same_iff = λ s t. eq_iff s t }

instance abbrev pub nat_eq : Eq ℕ
nat_eq = record { same_iff = λ m n. ==_iff m n; same = nat_beq }

-- `j == k`
infix 50 ◌==◌
abbrev pub ◌==◌ {κ} : {K : Type κ} ⦃key : Eq K⦄ → K → K → Bool
◌==◌ ⦃key⦄ j k = key.same j k

-- `a <= b`
pub record Ord {ℓ} (A : Type ℓ) : Type ℓ where
  pub le : A → A → Bool
  pub le_total : (a b : A) → le a b ≡ false → le b a ≡ true
  pub le_antisymm : (a b : A) → le a b ≡ true → le b a ≡ true → a ≡ b
  pub le_trans : (a b c : A) → le a b ≡ true → le b c ≡ true → le a c ≡ true

pub leb_total : (a b : ℕ) → leb a b ≡ false → leb b a ≡ true
leb_total a b h = ground arith

pub leb_antisymm : (a b : ℕ) → leb a b ≡ true → leb b a ≡ true → a ≡ b
leb_antisymm a b h k = ground arith

pub leb_trans : (a b c : ℕ) → leb a b ≡ true → leb b c ≡ true → leb a c ≡ true
leb_trans a b c h k = ground arith

instance abbrev pub nat_ord : Ord ℕ
nat_ord = record {
  le = leb;
  le_total = leb_total;
  le_antisymm = leb_antisymm;
  le_trans = leb_trans;
}

abbrev pub is_le : Ordering → Bool
is_le gt = false
is_le _ = true

-- Texts are compared by their characters' numbers, as `str::cmp` compares their bytes.
abbrev pub string_le : String → String → Bool
string_le s t = is_le (compare_string s t)

pub string_le_total : (s t : String) → string_le s t ≡ false → string_le t s ≡ true
string_le_total str_nil str_nil h = ground (arith, compare.nil-nil)
string_le_total str_nil (str_cons d t) h = ground (arith, compare.nil-cons d t)
string_le_total (str_cons c s) str_nil h = ground (arith, compare.nil-cons c s)
string_le_total (str_cons c s) (str_cons d t) h =
    ground (arith, compare.cons-cons c d s t, compare.cons-cons d c t s, string_le_total s t)

pub string_le_antisymm : (s t : String) → string_le s t ≡ true → string_le t s ≡ true → s ≡ t
string_le_antisymm str_nil str_nil h k = refl
string_le_antisymm str_nil (str_cons d t) h k = ground (arith, compare.cons-nil d t)
string_le_antisymm (str_cons c s) str_nil h k = ground (arith, compare.cons-nil c s)
string_le_antisymm (str_cons c s) (str_cons d t) h k = ground (
  arith,
  compare.cons-cons c d s t,
  compare.cons-cons d c t s,
  codes_equal c d,
  string_le_antisymm s t,
)

pub string_le_trans :
    (s t u : String) → string_le s t ≡ true → string_le t u ≡ true → string_le s u ≡ true
string_le_trans str_nil t str_nil h k = ground (arith, compare.nil-nil)
string_le_trans str_nil t (str_cons e u) h k = ground (arith, compare.nil-cons e u)
string_le_trans (str_cons c s) str_nil u h k = ground (arith, compare.cons-nil c s)
string_le_trans (str_cons c s) (str_cons d t) str_nil h k = ground (arith, compare.cons-nil d t)
string_le_trans (str_cons c s) (str_cons d t) (str_cons e u) h k = ground (
  arith,
  compare.cons-cons c d s t,
  compare.cons-cons d e t u,
  compare.cons-cons c e s u,
  string_le_trans s t u,
)

instance abbrev pub string_ord : Ord String
string_ord = record {
  le = string_le;
  le_total = string_le_total;
  le_antisymm = string_le_antisymm;
  le_trans = string_le_trans;
}

-- Tuples compare equal in both parts, and are ordered by the first part, then by the second.
module _ {ℓ κ} {A : Type ℓ} {B : Type κ} ⦃a : Eq A⦄ ⦃b : Eq B⦄ where
  abbrev pub pair_beq : A × B → A × B → Bool
  pair_beq x y = a.same x.0 y.0 && b.same x.1 y.1

  pub pair_beq_iff : (x y : A × B) → (pair_beq x y ≡ true) ↔ (x ≡ y)
  pair_beq_iff x y = (
    ground (arith, a.same_iff x.0 y.0, b.same_iff x.1 y.1),
    ground (arith, a.same_iff x.0 y.0, b.same_iff x.1 y.1),
  )

  instance abbrev pub pair_eq : Eq (A × B)
  pair_eq = record { same = pair_beq; same_iff = pair_beq_iff }

module _ {ℓ κ} {A : Type ℓ} {B : Type κ} ⦃a : Ord A⦄ ⦃b : Ord B⦄ where
  abbrev pub pair_le : A × B → A × B → Bool
  pair_le x y = a.le x.0 y.0 && (not (a.le y.0 x.0) || b.le x.1 y.1)

  pub pair_le_total : (x y : A × B) → pair_le x y ≡ false → pair_le y x ≡ true
  pair_le_total x y h = ground (arith, a.le_total x.0 y.0, b.le_total x.1 y.1)

  pub pair_le_antisymm : (x y : A × B) → pair_le x y ≡ true → pair_le y x ≡ true → x ≡ y
  pair_le_antisymm x y h k = ground (arith, a.le_antisymm x.0 y.0, b.le_antisymm x.1 y.1)

  pub pair_le_trans : (x y z : A × B) → pair_le x y ≡ true → pair_le y z ≡ true → pair_le x z ≡ true
  pair_le_trans x y z h k = ground (
    arith,
    a.le_trans x.0 y.0 z.0,
    a.le_trans z.0 x.0 y.0,
    a.le_trans y.0 z.0 x.0,
    b.le_trans x.1 y.1 z.1,
  )

  instance abbrev pub pair_ord : Ord (A × B)
  pair_ord = record {
    le = pair_le;
    le_total = pair_le_total;
    le_antisymm = pair_le_antisymm;
    le_trans = pair_le_trans;
  }
