-- ===== src/Transaction/Gateway/Amounts.antt =====
-- src/core/transaction.rs: the amounts and assets that gateway JSON may hold.
use Prim.Native.String.{String, ◌∷◌ as str_cons, [] as str_nil, ◌++◌ as text_append}
use Prim.Native.String.append
use text.Mathlib.Text.{◌==◌ as str_eq}
use text.Mathlib.TextEquality.{eq_iff}
use mathlib.Core.Path.{subst}
use native.Mathlib.Nat.{div-add-mod', le_of_mul-le-mul_right, one-le-pow}
use platarium_core.Base.{
  ok_inj, ℕ, ◌*◌, ◌/◌, ◌%◌, ◌^◌, ◌<◌, ◌≤◌, ◌-◌, min, ltb, ltb→lt, sym, if◌then◌else◌, err,
  unsupported_number, ◌≡◌, refl, ◌⊎◌, inl, inr, true, false, some, arith, u64_mod, ok, Bool-cases,
}
use platarium_core.Data.Parse.{strip_prefix}
use platarium_core.Asset.{Asset, plp, token, as_canonical, token-ne-plp}
use platarium_core.Json.{Float}
use platarium_core.Transaction.Gateway.{parse_canonical, parse_float, is_whole, as_u64_saturating}

strip_prefix-append : (p s : String) → strip_prefix p (text_append p s) ≡ some s
unfolding strip_prefix
strip_prefix-append str_nil s = rw (append.nil s) refl
strip_prefix-append (str_cons c p) s =
    rw (append.cons c p s) (ground (arith, strip_prefix-append p s))

-- Reading the canonical text of an asset gives the asset back.
pub parse_canonical-as_canonical : (a : Asset) → parse_canonical (as_canonical a) ≡ a
unfolding parse_canonical as_canonical
parse_canonical-as_canonical plp = refl
parse_canonical-as_canonical (token s) = elim (Bool-cases (str_eq (text_append "Token:" s) "PLP")) [
  | inl e ↦ absurd (token-ne-plp s ((eq_iff (text_append "Token:" s) "PLP").0 e))
  | inr e ↦ rw e (rw (strip_prefix-append "Token:" s) refl)
]

whole_quotient : (m p : ℕ) → m % p ≡ 0 → m / p * p ≡ m
whole_quotient m p h = omega (arith, div-add-mod' m p, h)

quotient_bound : (m p : ℕ) → 0 < p → m / p * p ≡ m → m ≤ u64_mod * p → m / p ≤ u64_mod
quotient_bound m p pos e h = le_of_mul-le-mul_right (subst (λ a. a ≤ u64_mod * p) (sym e) h) pos

saturated_quotient :
    (q p m : ℕ)
    → q * p ≡ m
    → q ≤ u64_mod
    → ((min q (u64_mod - 1) < u64_mod) × (m ≡ min q (u64_mod - 1) * p))
      ⊎ ((min q (u64_mod - 1) ≡ u64_mod - 1) × (m ≡ u64_mod * p))
saturated_quotient q p m e h = elim (Bool-cases (ltb q u64_mod)) [
  | inl small ↦
      let r : min q (u64_mod - 1) ≡ q = ground (arith, small) in
      inl (rw r (ltb→lt q u64_mod small), rw r (sym e))
  | inr large ↦
      let r : q ≡ u64_mod = ground (arith, large) in
      inr (rw r refl, subst (λ a. m ≡ a * p) r (sym e))
]

taken_lem :
    (f : Float)
    → is_whole f ≡ true
    → (f.negative ≡ false)
      × (f.numerator % 2 ^ f.scale ≡ 0)
      × (0 < f.numerator)
      × (f.numerator ≤ u64_mod * 2 ^ f.scale)
unfolding is_whole
taken_lem f h = (ground (arith, h), ground (arith, h), ground (arith, h), ground (arith, h))

-- A floating-point amount that is accepted is not negative, and what it is read as is at least 1.
-- It is the number itself if that lies below 2^64, and 2^64 - 1 if the number is 2^64.
pub parse_float-ok :
    (f : Float) (n : ℕ)
    → parse_float f ≡ ok n
    → (f.negative ≡ false)
      × (((n < u64_mod) × (f.numerator ≡ n * 2 ^ f.scale))
          ⊎ ((n ≡ u64_mod - 1) × (f.numerator ≡ u64_mod * 2 ^ f.scale)))
unfolding parse_float as_u64_saturating
parse_float-ok f n h = elim (Bool-cases (is_whole f)) [
  | inl whole ↦
      let t = taken_lem f whole in
      let e = whole_quotient f.numerator (2 ^ f.scale) t.1 in
      let r : min (f.numerator / 2 ^ f.scale) (u64_mod - 1) ≡ n = ok_inj (
        subst
          (λ b.
            (if b
              then ok (min (f.numerator / 2 ^ f.scale) (u64_mod - 1))
              else err unsupported_number)
            ≡ ok n)
          whole h) in
      (
        t.0,
        subst
            (λ a.
              ((a < u64_mod) × (f.numerator ≡ a * 2 ^ f.scale))
              ⊎ ((a ≡ u64_mod - 1) × (f.numerator ≡ u64_mod * 2 ^ f.scale)))
            r
            (saturated_quotient (f.numerator / 2 ^ f.scale) (2 ^ f.scale) f.numerator e (
              quotient_bound f.numerator (2 ^ f.scale) (one-le-pow f.scale 2 (omega arith)) e t.3)),
      )
  | inr fraction ↦ absurd (ground (arith, fraction, h))
]
