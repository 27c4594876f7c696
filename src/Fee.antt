-- ===== src/Fee.antt =====
-- src/core/fee.rs: fees in μPLP from the load of the mempool.
pub mod Tiers
pub mod Display
use Prim.Native.String.{String, ◌++◌, ◌∷◌ as str_cons, [] as str_nil}
use Prim.Native.Char.{Char}
use platarium_core.Base.{
  ℕ, zero, suc, ◌+◌, ◌*◌, ◌/◌, ◌%◌, ltb, leb, ◌==◌, if◌then◌else◌, List, [], ◌∷◌, ◌++◌ as append,
  map, u64_mod, wrapping_add, wrapping_mul, Bool, length,
}

-- `MicroPLP`
pub record MicroPlp : Type 0 where
  pub value : ℕ

abbrev pub micro_plp_per_plp : ℕ
micro_plp_per_plp = 1_000_000

abbrev pub base_tx_fee_micro_plp : ℕ
base_tx_fee_micro_plp = 1

abbrev pub max_batch_size : ℕ
max_batch_size = 1000

unfoldable pub as_plp : MicroPlp → ℕ
as_plp m = m.value / micro_plp_per_plp

unfoldable pub remainder_micro_plp : MicroPlp → ℕ
remainder_micro_plp m = m.value % micro_plp_per_plp

-- `Add` and the two `Mul`s
unfoldable pub add : MicroPlp → MicroPlp → MicroPlp
add a b = record { value = wrapping_add u64_mod a.value b.value }

unfoldable pub mul : MicroPlp → ℕ → MicroPlp
mul a k = record { value = wrapping_mul u64_mod a.value k }

unfoldable pub load_percentage : ℕ → ℕ
load_percentage pending_tx_count =
    if leb max_batch_size pending_tx_count
    then 100
    else wrapping_mul u64_mod pending_tx_count 100 / max_batch_size

unfoldable pub calculate_load_multiplier : ℕ → ℕ
unfolding load_percentage
calculate_load_multiplier pending_tx_count =
    let load = load_percentage pending_tx_count in
    if leb load 30 then 1 else if leb load 60 then 2 else if leb load 80 then 3 else 5

unfoldable pub calculate_fee : ℕ → ℕ → ℕ
calculate_fee base_fee load_multiplier = wrapping_mul u64_mod base_fee load_multiplier

unfoldable pub calculate_fee_micro_plp : MicroPlp → ℕ → MicroPlp
unfolding mul
calculate_fee_micro_plp base_fee load_multiplier = mul base_fee load_multiplier

unfoldable pub calculate_fee_from_load : ℕ → ℕ
unfolding calculate_fee calculate_load_multiplier
calculate_fee_from_load pending_tx_count =
    calculate_fee base_tx_fee_micro_plp (calculate_load_multiplier pending_tx_count)

unfoldable pub calculate_fee_from_load_micro_plp : ℕ → MicroPlp
unfolding calculate_fee_micro_plp calculate_load_multiplier
calculate_fee_from_load_micro_plp pending_tx_count =
    calculate_fee_micro_plp (record { value = base_tx_fee_micro_plp })
      (calculate_load_multiplier pending_tx_count)

-- The decimal digits that `format!` writes: `{:06}` writes six, `{}` as many as the number has. A
-- text is the list of its bytes here.
unfoldable pub fixed_digits : ℕ → ℕ → List ℕ
fixed_digits zero n = []
fixed_digits (suc w) n = append (fixed_digits w (n / 10)) ((b'0' + n % 10) ∷ [])

-- A number of 64 bits has at most 20 digits.
unfoldable pub digits_upto : ℕ → ℕ → List ℕ
digits_upto zero n = []
digits_upto (suc w) n =
    let rest = digits_upto w (n / 10) in
    if ltb n 10 then (b'0' + n) ∷ [] else append rest ((b'0' + n % 10) ∷ [])

unfoldable pub fee_to_plp_string : ℕ → List ℕ
unfolding fixed_digits digits_upto
fee_to_plp_string fee_micro_plp =
    let plp = fee_micro_plp / micro_plp_per_plp in
    let remainder = fee_micro_plp % micro_plp_per_plp in
    if remainder == 0
    then append (digits_upto 20 plp) (b'.' ∷ b'0' ∷ b'0' ∷ b'0' ∷ b'0' ∷ b'0' ∷ b'0' ∷ [])
    else append (digits_upto 20 plp) (b'.' ∷ fixed_digits 6 remainder)
