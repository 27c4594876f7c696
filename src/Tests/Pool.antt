-- ===== src/Tests/Pool.antt =====
-- The theorems on the mempool and the fees at concrete ones.
use platarium_core.Base.{◌/◌, ◌%◌, ◌++◌, arith, ◌≤◌, max, ◌≡◌, refl, arith, [], ◌∷◌, length, filter}
use platarium_core.Data.Sort.{sort_by}
use platarium_core.Mempool.{
  Mempool, contains, holds, get_all_transactions, get_transaction_hashes_for_block, fill_block,
}
use platarium_core.Mempool
use platarium_core.Mempool.Invariant.{
  IsValid, IsDistinct, add, force, remove_one, perform_all, perform_all-IsValid,
}
use platarium_core.Mempool.Order.{block_bounded}
use platarium_core.Fee.{fee_to_plp_string, digits_upto, fixed_digits, micro_plp_per_plp}
use platarium_core.Fee.Display.{read_decimal, fee_to_plp_string_lem}
use platarium_core.Tests.Fixtures.{payment}

-- Two payments, the second of which is forced into the next block, as is a hash that is not there.
abbrev pool : Mempool
pool = record {
  transactions =
      ("h1", record { tx = payment; arrival_index = 0 })
      ∷ ("h2", record { tx = record payment { hash = "h2" }; arrival_index = 1 })
      ∷ [];
  next_arrival_index = 2;
  forced_inclusion = "h2" ∷ "h9" ∷ [];
}

pool-IsValid : IsValid pool
pool-IsValid = record {
  keyed = (refl, (refl, tt));
  entries = ((refl, omega arith), ((refl, omega arith), tt));
  counter = omega arith;
  distinct = (refl, (refl, tt));
  queue = omega arith;
}

block_test : get_transaction_hashes_for_block pool 2 ≡ "h2" ∷ "h1" ∷ []
unfolding get_transaction_hashes_for_block contains fill_block sort_by
block_test = refl

-- The queue alone exceeds the limit.
forced_test : get_transaction_hashes_for_block pool 0 ≡ "h2" ∷ []
unfolding get_transaction_hashes_for_block contains fill_block sort_by
forced_test = refl

perform_all-IsValid_example :
    IsValid (perform_all Mempool.new (add payment ∷ force "h1" ∷ remove_one "h1" ∷ []))
perform_all-IsValid_example = perform_all-IsValid (add payment ∷ force "h1" ∷ remove_one "h1" ∷ [])

block_bounded_example :
    IsDistinct (get_transaction_hashes_for_block pool 1)
    × (length (get_transaction_hashes_for_block pool 1)
        ≤ max 1 (length (filter (contains pool) ("h2" ∷ "h9" ∷ []))))
block_bounded_example = block_bounded pool 1 pool-IsValid

fee_to_plp_string_lem_example :
    (fee_to_plp_string 1_500_000
      ≡ digits_upto 20 (1_500_000 / micro_plp_per_plp)
        ++ b'.' ∷ fixed_digits 6 (1_500_000 % micro_plp_per_plp))
    × (read_decimal 0 (fee_to_plp_string 1_500_000) ≡ 1_500_000)
fee_to_plp_string_lem_example = fee_to_plp_string_lem 1_500_000 (omega arith)
