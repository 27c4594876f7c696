-- ===== src/Fee/Display.antt =====
-- The fee as a text of PLP with six decimals, and the number that the text stands for.
use platarium_core.Base.{
  ℕ, zero, suc, ◌+◌, ◌-◌, ◌*◌, ◌/◌, ◌%◌, ◌≤◌, ◌<◌, ◌≡◌, ◌∙◌, refl, ap, List, [], ◌∷◌, ◌++◌, arith,
  ◌==◌, ltb, if◌then◌else◌, u64_mod, Bool-cases, inl, inr,
}
use platarium_core.Fee.{fixed_digits, digits_upto, fee_to_plp_string, micro_plp_per_plp}

-- The number that decimal digits stand for, with a point passed over.
pub read_decimal : ℕ → List ℕ → ℕ
read_decimal acc [] = acc
read_decimal acc (c ∷ cs) = read_decimal (if c == b'.' then acc else acc * 10 + (c - b'0')) cs

abbrev pub pow10 : ℕ → ℕ
pow10 zero = 1
pow10 (suc w) = 10 * pow10 w

read_decimal-append :
    (acc : ℕ) (xs ys : List ℕ) → read_decimal acc (xs ++ ys) ≡ read_decimal (read_decimal acc xs) ys
unfolding read_decimal
read_decimal-append acc [] ys = refl
read_decimal-append acc (x ∷ xs) ys =
    read_decimal-append (if x == b'.' then acc else acc * 10 + (x - b'0')) xs ys

read_decimal-digit : (acc d : ℕ) → read_decimal acc ((b'0' + d) ∷ []) ≡ acc * 10 + d
unfolding read_decimal
read_decimal-digit acc d = ground arith

read_decimal-fixed_digits :
    (w acc n : ℕ) → n < pow10 w → read_decimal acc (fixed_digits w n) ≡ acc * pow10 w + n
unfolding read_decimal fixed_digits
read_decimal-fixed_digits zero acc n h = omega arith
read_decimal-fixed_digits (suc w) acc n h =
    read_decimal-append acc (fixed_digits w (n / 10)) ((b'0' + n % 10) ∷ [])
    ∙ read_decimal-digit (read_decimal acc (fixed_digits w (n / 10))) (n % 10)
    ∙ omega (arith, read_decimal-fixed_digits w acc (n / 10) (omega arith))

pub positive_width : (w n : ℕ) → 10 ≤ n → n < pow10 (suc w) → 0 < w
positive_width zero n big h = absurd (omega arith)
positive_width (suc w) n big h = omega arith

read_decimal-digits_upto : (w n : ℕ) → n < pow10 w → 0 < w → read_decimal 0 (digits_upto w n) ≡ n
unfolding read_decimal digits_upto
read_decimal-digits_upto zero n h p = absurd (omega arith)
read_decimal-digits_upto (suc w) n h p = elim (Bool-cases (ltb n 10)) [
  | inl small ↦ rw small (read_decimal-digit 0 n ∙ omega arith)
  | inr large ↦ rw large (
      read_decimal-append 0 (digits_upto w (n / 10)) ((b'0' + n % 10) ∷ [])
      ∙ read_decimal-digit (read_decimal 0 (digits_upto w (n / 10))) (n % 10)
      ∙ omega (
        arith,
        read_decimal-digits_upto w (n / 10) (omega arith)
            (positive_width w n (ground (arith, large)) h),
      ))
]

read_decimal-point : (a : ℕ) (cs : List ℕ) → read_decimal a (b'.' ∷ cs) ≡ read_decimal a cs
unfolding read_decimal
read_decimal-point a cs = refl

shape :
    (n : ℕ)
    → fee_to_plp_string n
      ≡ digits_upto 20 (n / micro_plp_per_plp) ++ b'.' ∷ fixed_digits 6 (n % micro_plp_per_plp)
unfolding fee_to_plp_string
shape n = elim (Bool-cases (n % micro_plp_per_plp == 0)) [
  | inl whole ↦ let e : n % micro_plp_per_plp ≡ 0 = ground (arith, whole) in rw (whole, e) refl
  | inr fraction ↦ rw fraction refl
]

-- The text of a 64-bit fee has the whole PLP, a point and exactly six more digits, and read as a
-- decimal number with the point passed over it gives the fee back.
pub fee_to_plp_string_lem :
    (n : ℕ)
    → n < u64_mod
    → (fee_to_plp_string n
        ≡ digits_upto 20 (n / micro_plp_per_plp) ++ b'.' ∷ fixed_digits 6 (n % micro_plp_per_plp))
      × (read_decimal 0 (fee_to_plp_string n) ≡ n)
fee_to_plp_string_lem n h = (
  shape n,
  rw (shape n) (
      read_decimal-append 0 (digits_upto 20 (n / micro_plp_per_plp))
        (b'.' ∷ fixed_digits 6 (n % micro_plp_per_plp))
      ∙ ap (λ a. read_decimal a (b'.' ∷ fixed_digits 6 (n % micro_plp_per_plp)))
          (read_decimal-digits_upto 20 (n / micro_plp_per_plp) (omega arith) (omega arith))
      ∙ read_decimal-point (n / micro_plp_per_plp) (fixed_digits 6 (n % micro_plp_per_plp))
      ∙ read_decimal-fixed_digits 6 (n / micro_plp_per_plp) (n % micro_plp_per_plp) (omega arith)
      ∙ omega arith),
)
