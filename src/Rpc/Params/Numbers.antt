-- ===== src/Rpc/Params/Numbers.antt =====
-- src/core/core_rpc.rs: numbers in the parameters of a request, written as texts.
use Prim.Native.String.{String}
use platarium_core.Base.{
  ℕ, suc, ◌+◌, ◌-◌, ◌≤◌, ◌<◌, ◌≡◌, refl, ap, ◌∙◌, false, ◌||◌, none, some, List, [], ◌∷◌, ◌==◌, ltb,
  ok, u64_mod, arith,
}
use platarium_core.Data.Int.{ℤ, pos, negsuc}
use platarium_core.Data.Parse.{
  codes, parse_uint, parse_int, parse_digits, i64_bound, positive, negative,
}
use platarium_core.Fee.{digits_upto}
use platarium_core.Fee.Display.{pow10}
use platarium_core.Json.{Json}
use platarium_core.Rpc.Params.{
  RequestDecoder, param_u64, param_i64, param_opt_str, and_then, parsed,
}
use platarium_core.StateFile.Decimals.{
  HasDigit, digits_upto-HasDigit, parse_digits-number, parse_uint-digits_upto,
}

-- `i64::to_string`, as the numbers of its characters, and the range of the type
abbrev pub int_digits : ℤ → List ℕ
int_digits (pos n) = digits_upto 20 n
int_digits (negsuc n) = b'-' ∷ digits_upto 20 (suc n)

abbrev pub IsInt64 : ℤ → Type 0
IsInt64 (pos n) = n < i64_bound
IsInt64 (negsuc n) = n < i64_bound

parse_int-unsigned :
    (xs : List ℕ) → HasDigit xs → parse_int xs ≡ positive (parse_digits i64_bound 0 xs)
unfolding parse_int
parse_int-unsigned [] h = absurd (ground (arith, h))
parse_int-unsigned (c ∷ []) h =
    let e : ((c == b'+') || (c == b'-')) ≡ false = ground (arith, h) in rw e refl
parse_int-unsigned (c ∷ d ∷ cs) h =
    let plus : (c == b'+') ≡ false = ground (arith, h) in
    let minus : (c == b'-') ≡ false = ground (arith, h) in rw (plus, minus) refl

parse_int-minus :
    (xs : List ℕ)
    → HasDigit xs
    → parse_int (b'-' ∷ xs) ≡ negative (parse_digits (i64_bound + 1) 0 xs)
unfolding parse_int
parse_int-minus [] h = absurd (ground (arith, h))
parse_int-minus (c ∷ cs) h = refl

-- An integer of 64 bits is read back from its decimal text.
pub parse_int-int_digits : (z : ℤ) → IsInt64 z → parse_int (int_digits z) ≡ some z
parse_int-int_digits (pos n) h =
    let bounded : n < pow10 20 = omega arith in
    parse_int-unsigned (digits_upto 20 n) (digits_upto-HasDigit 20 n (omega arith) bounded)
    ∙ ap positive (parse_digits-number i64_bound 20 n (omega arith) bounded h)
parse_int-int_digits (negsuc n) h =
    let bounded : suc n < pow10 20 = omega arith in
    parse_int-minus (digits_upto 20 (suc n)) (digits_upto-HasDigit 20 (suc n) (omega arith) bounded)
    ∙ ap negative
        (parse_digits-number (i64_bound + 1) 20 (suc n) (omega arith) bounded (omega arith))

module _ {Value : Type 0} (j : Json Value) (d : RequestDecoder Value) (params : Value) where
  -- The parameter is a text.
  abbrev pub IsText : String → String → Type 0
  IsText key text =
      (and_then (j.get params key) j.as_u64 ≡ none)
      × (and_then (j.get params key) d.as_i64 ≡ none)
      × (param_opt_str j d params key ≡ some text)

  -- A parameter that is the decimal text of a number of 64 bits is read as that number.
  pub param_u64_text :
      (key text : String) (n : ℕ)
      → IsText key text
      → n < u64_mod
      → codes text ≡ digits_upto 20 n
      → param_u64 j d params key ≡ ok n
  unfolding param_u64
  param_u64_text key text n (no_u64, no_i64, there) small digits =
      let bounded : n < pow10 20 = omega arith in
      let read = parse_uint-digits_upto u64_mod 20 n (omega arith) bounded small in
      rw (param_u64, no_u64, no_i64, there) (ap parsed (ap (parse_uint u64_mod) digits ∙ read))

  -- A parameter that is the decimal text of an integer of 64 bits, with a minus sign if it is below
  -- zero, is read as that integer, the lowest included.
  pub param_i64_text :
      (key text : String) (z : ℤ)
      → IsText key text
      → IsInt64 z
      → codes text ≡ int_digits z
      → param_i64 j d params key ≡ ok z
  unfolding param_i64
  param_i64_text key text z (no_u64, no_i64, there) range digits =
      rw (param_i64, no_i64, no_u64, there)
        (ap parsed (ap parse_int digits ∙ parse_int-int_digits z range))

  -- A number from 2^63 to 2^64 - 1 is read by `param_i64` as the negative integer that is less by
  -- 2^64.
  pub param_i64_wraps :
      (key : String) (n : ℕ)
      → and_then (j.get params key) d.as_i64 ≡ none
      → and_then (j.get params key) j.as_u64 ≡ some n
      → i64_bound ≤ n
      → n < u64_mod
      → (k : ℕ) × (param_i64 j d params key ≡ ok (negsuc k)) × (n + suc k ≡ u64_mod)
  unfolding param_i64
  param_i64_wraps key n no_i64 there high low =
      let wraps : ltb n i64_bound ≡ false = ground (arith, high) in
      (u64_mod - 1 - n, rw (param_i64, no_i64, there, wraps) refl, omega arith)
