-- ===== src/Proposal/Admission.antt =====
-- src/core/block_proposal.rs: admission to the pool.
pub mod Accepted
use Prim.Native.String.{String}
use platarium_core.Base.{
  ℕ, zero, suc, ◌+◌, Bool, true, false, ◌&&◌, ◌||◌, not, Option, none, some, List, [], ◌∷◌, ◌++◌,
  any, is_empty, length, ltb, leb, ◌==◌, if◌then◌else◌, u64_mod, u128_mod, wrapping_add,
  saturating_add, Result, ok, err, ◌>>◌, ◌>>=◌, guard, PlatariumError, insufficient_balance, other,
  stale_nonce, nonce_pending, nonce_gap, fee_below_minimum, insufficient_fee_budget,
}
use platarium_core.Data.Ord.{◌==◌ as same, string_eq, string_ord, nat_ord, pair_ord}
use platarium_core.Data.Map.{HashMap, get, get_or_zero, insert, contains_key}
use platarium_core.Data.Sort.{sort_by}
use platarium_core.Data.Parse.{codes, parse_uint}
use platarium_core.Data.Int.{ℤ, pos, negsuc, lt_int, le_int, sub_nat}
use platarium_core.Asset.{plp, is_plp}
use platarium_core.Crypto.{Crypto}
use platarium_core.Fee.{calculate_fee_from_load}
use platarium_core.Json.{Json}
use platarium_core.State.{State, get_nonce, get_asset_balance, fee_spendable_uplp}
use platarium_core.Transaction.{Transaction, TransactionHashData}
use platarium_core.Transaction.Gateway.{from_gateway_json, require}
use platarium_core.Execution.{validate_transaction, check_transaction_applicability}
use platarium_core.Proposal.{
  SnapshotTxFields, MempoolSnapshotEntry, MempoolAdmitResult, BlockProposalStatus,
  SelectBlockTxsResult, block_gas_cap_uplp, block_min_tx_count, block_min_gas_uplp,
  block_max_wait_sec, block_max_tx_count, faucet_address, mempool_max_nonce_gap, fee_uplp_u64,
  parse_u128_value, unwrap_or_nat, is_ordinary,
}
use platarium_core.Proposal.Pending.{pending_reserve, nonce_already_pending, contiguous_next_nonce}

-- The returns of `mempool_admit`
abbrev pub verdict : ℕ → ℕ → Result (Unit {0}) → MempoolAdmitResult
verdict min_fee expected (ok _) = record {
  accepted = true;
  error = none;
  min_fee_uplp = min_fee;
  expected_nonce = expected;
}
verdict min_fee expected (err e) = record {
  accepted = false;
  error = some e;
  min_fee_uplp = min_fee;
  expected_nonce = expected;
}

module _ {Value : Type 0} (j : Json Value) where
  module _ (c : Crypto TransactionHashData) (s : State)
      (mempool : List (MempoolSnapshotEntry Value)) where
    -- The guards of `mempool_admit` on a sender's transaction, in the order of the code.
    unfoldable pub check_admission : Transaction → ℕ → ℕ → Result (Unit {0})
    unfolding nonce_already_pending pending_reserve get_nonce fee_spendable_uplp get_asset_balance
        validate_transaction check_transaction_applicability
    check_admission tx min_fee tip = do
      let chain_nonce = get_nonce s tx.from
      guard (ltb tx.nonce chain_nonce) (stale_nonce tip tx.nonce)
      guard (nonce_already_pending mempool tx.from tx.nonce) (nonce_pending tx.nonce tx.from)
      guard (ltb (saturating_add u64_mod tip mempool_max_nonce_gap) tx.nonce)
          (nonce_gap tip tx.nonce)
      guard (ltb tx.fee_uplp min_fee) (fee_below_minimum min_fee)
      let reserved = pending_reserve j mempool tx.from
      let fee_spendable = fee_spendable_uplp s tx.from
      let fee_need = wrapping_add u128_mod reserved.1 tx.fee_uplp
      guard (ltb fee_spendable fee_need) (insufficient_fee_budget fee_need fee_spendable)
      let plp_bal = get_asset_balance s tx.from plp
      let need = wrapping_add u128_mod reserved.0 tx.amount
      guard (is_plp tx.asset && ltb plp_bal need) (insufficient_balance need plp_bal)
      (if tx.nonce == chain_nonce
          then validate_transaction c tx >> check_transaction_applicability s tx
          else validate_transaction c tx)

    unfoldable pub admit_transaction : Transaction → MempoolAdmitResult
    unfolding check_admission contiguous_next_nonce calculate_fee_from_load
    admit_transaction tx =
        let min_fee = calculate_fee_from_load (length mempool) in
        let tip = contiguous_next_nonce mempool tx.from (get_nonce s tx.from) in
        if same tx.from faucet_address
        then verdict min_fee tx.nonce (ok tt)
        else verdict min_fee tip (check_admission tx min_fee tip)

    unfoldable pub mempool_admit : String → MempoolAdmitResult
    unfolding admit_transaction from_gateway_json
    mempool_admit tx_json = elim (from_gateway_json j tx_json) [
      | ok tx ↦ admit_transaction tx
      | err e ↦ verdict (calculate_fee_from_load (length mempool)) 0 (err e)
    ]
