-- ===== src/StateFile/Decimals.antt =====
-- src/core/state_file.rs: a balance survives its decimal text.
use platarium_core.Base.{
  ℕ, zero, suc, ◌+◌, ◌-◌, ◌*◌, ◌/◌, ◌%◌, ◌≤◌, ◌<◌, ◌≡◌, ◌∙◌, refl, ap, sym, true, false, some, List,
  [], ◌∷◌, ◌++◌, arith, ltb, ltb→lt, leb, ◌||◌, ◌==◌, u128_mod, Bool-cases, inl, inr, ok,
}
use mathlib.Core.List.{append_assoc, append-nil}
use platarium_core.Data.Parse.{parse_digits, parse_uint}
use platarium_core.Fee.{digits_upto}
use platarium_core.Fee.Display.{pow10, positive_width}
use platarium_core.StateFile.{to_decimal, parse_balance}

parse_digits-nil : (w acc : ℕ) → parse_digits w acc [] ≡ some acc
unfolding parse_digits
parse_digits-nil w acc = refl

-- one digit
parse_digits-digit :
    (w acc d : ℕ) (rest : List ℕ)
    → d < 10
    → acc * 10 + d < w
    → parse_digits w acc ((b'0' + d) ∷ rest) ≡ parse_digits w (acc * 10 + d) rest
unfolding parse_digits
parse_digits-digit w acc d rest h small =
    let e : acc * 10 + (b'0' + d - b'0') ≡ acc * 10 + d = omega arith in
    let fine : (ltb (b'0' + d) b'0' || ltb b'9' (b'0' + d) || leb w (acc * 10 + d)) ≡ false =
      ground arith in
    rw (e, fine) refl

-- The digits of a number read back as the number, whatever follows them.
parse_digits-digits_upto :
    (w d n : ℕ) (rest : List ℕ)
    → 0 < d
    → n < pow10 d
    → n < w
    → parse_digits w 0 (digits_upto d n ++ rest) ≡ parse_digits w n rest
unfolding digits_upto
parse_digits-digits_upto w zero n rest p h small = absurd (omega arith)
parse_digits-digits_upto w (suc d) n rest p h small = elim (Bool-cases (ltb n 10)) [
  | inl one ↦ rw one (
      parse_digits-digit w 0 n rest (ltb→lt n 10 one) (omega arith)
      ∙ ap (λ a. parse_digits w a rest) (omega arith))
  | inr more ↦
      let big : 10 ≤ n = ground (arith, more) in
      rw more (
        ap (parse_digits w 0) (append_assoc (digits_upto d (n / 10)) ((b'0' + n % 10) ∷ []) rest)
        ∙ parse_digits-digits_upto w d (n / 10) ((b'0' + n % 10) ∷ rest) (positive_width d n big h)
            (omega arith) (omega arith)
        ∙ parse_digits-digit w (n / 10) (n % 10) rest (omega arith) (omega arith)
        ∙ ap (λ a. parse_digits w a rest) (omega arith))
]

pub parse_digits-number :
    (w d n : ℕ) → 0 < d → n < pow10 d → n < w → parse_digits w 0 (digits_upto d n) ≡ some n
parse_digits-number w d n positive bounded small =
    ap (parse_digits w 0) (sym (append-nil (digits_upto d n)))
    ∙ parse_digits-digits_upto w d n [] positive bounded small
    ∙ parse_digits-nil w n

-- No text of a number starts with a plus.
abbrev pub HasDigit : List ℕ → Type 0
HasDigit [] = true ≡ false
HasDigit (c ∷ cs) = b'0' ≤ c

HasDigit-append : (xs ys : List ℕ) → HasDigit xs → HasDigit (xs ++ ys)
HasDigit-append [] ys h = absurd (ground (arith, h))
HasDigit-append (x ∷ xs) ys h = h

pub digits_upto-HasDigit : (d n : ℕ) → 0 < d → n < pow10 d → HasDigit (digits_upto d n)
unfolding digits_upto
digits_upto-HasDigit zero n p h = absurd (omega arith)
digits_upto-HasDigit (suc d) n p h = elim (Bool-cases (ltb n 10)) [
  | inl one ↦ rw one (omega arith)
  | inr more ↦
      let big : 10 ≤ n = ground (arith, more) in
      rw more (
        HasDigit-append (digits_upto d (n / 10)) ((b'0' + n % 10) ∷ [])
          (digits_upto-HasDigit d (n / 10) (positive_width d n big h) (omega arith)))
]

parse_uint-parse_digits :
    (w : ℕ) (xs : List ℕ) → HasDigit xs → parse_uint w xs ≡ parse_digits w 0 xs
unfolding parse_uint
parse_uint-parse_digits w [] h = absurd (ground (arith, h))
parse_uint-parse_digits w (c ∷ []) h = let e : (c == b'+') ≡ false = ground (arith, h) in rw e refl
parse_uint-parse_digits w (c ∷ d ∷ cs) h =
    let e : (c == b'+') ≡ false = ground (arith, h) in rw e refl

-- A number below the modulus of its type is read back from its digits.
pub parse_uint-digits_upto :
    (w d n : ℕ) → 0 < d → n < pow10 d → n < w → parse_uint w (digits_upto d n) ≡ some n
parse_uint-digits_upto w d n positive bounded small =
    parse_uint-parse_digits w (digits_upto d n) (digits_upto-HasDigit d n positive bounded)
    ∙ parse_digits-number w d n positive bounded small

-- A 128-bit number is read back from its decimal text.
pub parse_balance-to_decimal : (n : ℕ) → n < u128_mod → parse_balance (to_decimal n) ≡ ok n
unfolding to_decimal
parse_balance-to_decimal n h =
    let bounded : n < pow10 39 = omega arith in
    rw (parse_uint-digits_upto u128_mod 39 n (omega arith) bounded h, parse_balance) refl
