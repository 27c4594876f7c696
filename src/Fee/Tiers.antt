-- ===== src/Fee/Tiers.antt =====
-- The tiers of the load multiplier.
use platarium_core.Base.{ℕ, ◌≤◌, ◌≡◌, arith, if◌then◌else◌, leb}
use platarium_core.Fee.{
  calculate_load_multiplier, calculate_fee_from_load, calculate_fee_from_load_micro_plp,
}

-- A larger mempool never makes the fee smaller; the fee lies between 1 and 5 μPLP, and both
-- versions of the function return it.
pub calculate_fee_from_load_mono :
    (a b : ℕ)
    → a ≤ b
    → (calculate_fee_from_load a ≤ calculate_fee_from_load b)
      × (1 ≤ calculate_fee_from_load a)
      × (calculate_fee_from_load b ≤ 5)
      × ((calculate_fee_from_load_micro_plp a).value ≡ calculate_fee_from_load a)
unfolding calculate_fee_from_load calculate_fee_from_load_micro_plp
calculate_fee_from_load_mono a b h = (ground arith, ground arith, ground arith, ground arith)

-- The multiplier in terms of the count itself: below 310 pending transactions it is 1, below 610
-- it is 2, below 810 it is 3, and from 810 on it is 5.
pub calculate_load_multiplier_tiers :
    (n : ℕ)
    → calculate_load_multiplier n
      ≡ (if leb 810 n then 5 else if leb 610 n then 3 else if leb 310 n then 2 else 1)
unfolding calculate_load_multiplier
calculate_load_multiplier_tiers n = ground arith
