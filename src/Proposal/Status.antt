-- ===== src/Proposal/Status.antt =====
-- src/core/block_proposal.rs: when a block is proposed.
pub mod Progress
use Prim.Native.String.{String}
use platarium_core.Base.{
  ℕ, zero, suc, ◌+◌, Bool, true, false, ◌&&◌, ◌||◌, not, Option, none, some, List, [], ◌∷◌, ◌++◌,
  any, is_empty, length, ltb, leb, ◌==◌, if◌then◌else◌, u64_mod, u128_mod, wrapping_add,
  saturating_add, Result, ok, err, ◌>>◌, ◌>>=◌, guard, PlatariumError, insufficient_balance, other,
  stale_nonce, nonce_pending, nonce_gap, fee_below_minimum, insufficient_fee_budget,
}
use platarium_core.Data.Ord.{◌==◌ as same, string_eq, string_ord, nat_ord, pair_ord}
use platarium_core.Data.Map.{HashMap, get, get_or_zero, insert, contains_key}
use platarium_core.Data.Sort.{sort_by}
use platarium_core.Data.Parse.{codes, parse_uint}
use platarium_core.Data.Int.{ℤ, pos, negsuc, lt_int, le_int, sub_nat}
use platarium_core.Asset.{plp, is_plp}
use platarium_core.Crypto.{Crypto}
use platarium_core.Fee.{calculate_fee_from_load}
use platarium_core.Json.{Json}
use platarium_core.State.{State, get_nonce, get_asset_balance, fee_spendable_uplp}
use platarium_core.Transaction.{Transaction, TransactionHashData}
use platarium_core.Transaction.Gateway.{from_gateway_json, require}
use platarium_core.Execution.{validate_transaction, check_transaction_applicability}
use platarium_core.Proposal.{
  SnapshotTxFields, MempoolSnapshotEntry, MempoolAdmitResult, BlockProposalStatus,
  SelectBlockTxsResult, block_gas_cap_uplp, block_min_tx_count, block_min_gas_uplp,
  block_max_wait_sec, block_max_tx_count, faucet_address, mempool_max_nonce_gap, fee_uplp_u64,
  parse_u128_value, unwrap_or_nat, is_ordinary,
}

-- Both numbers are positive where they are subtracted.
abbrev pub wait_since : ℤ → ℤ → ℤ
wait_since (pos zero) now = pos 0
wait_since (pos (suc t)) (pos now) = if leb now (suc t) then pos 0 else sub_nat now (suc t)
wait_since (pos (suc t)) (negsuc now) = pos 0
wait_since (negsuc t) now = pos 0

-- One round of the loop: a time that is not positive is passed over, and 0 stands for no time yet.
abbrev pub older : ℤ → ℤ → ℤ
older oldest ts =
    if le_int ts (pos 0)
    then oldest
    else if (le_int oldest (pos 0) && le_int (pos 0) oldest) || lt_int ts oldest
    then ts
    else oldest

module _ {Value : Type 0} where
  abbrev pub time_of : MempoolSnapshotEntry Value → ℤ
  time_of e = if lt_int (pos 0) e.timestamp then e.timestamp else e.tx.timestamp

  unfoldable pub oldest_time : ℤ → List (MempoolSnapshotEntry Value) → ℤ
  oldest_time oldest [] = oldest
  oldest_time oldest (e ∷ es) = oldest_time (older oldest (time_of e)) es

  unfoldable pub oldest_wait_sec : List (MempoolSnapshotEntry Value) → ℤ → ℤ
  unfolding oldest_time
  oldest_wait_sec mempool now_unix = wait_since (oldest_time (pos 0) mempool) now_unix

module _ {Value : Type 0} (j : Json Value) where
  -- `.sum()` of 64-bit fees wraps, in whatever order they are added.
  unfoldable pub sum_fee_uplp : List (MempoolSnapshotEntry Value) → ℕ
  sum_fee_uplp [] = 0
  sum_fee_uplp (e ∷ es) = wrapping_add u64_mod (fee_uplp_u64 j e.tx) (sum_fee_uplp es)

  unfoldable pub block_proposal_status : List (MempoolSnapshotEntry Value) → ℤ → BlockProposalStatus
  unfolding sum_fee_uplp oldest_wait_sec calculate_fee_from_load
  block_proposal_status mempool now_unix =
      let count = length mempool in
      let gas = sum_fee_uplp mempool in
      let oldest_wait = oldest_wait_sec mempool now_unix in
      record {
        should_propose =
            if count == 0
            then false
            else if leb block_min_tx_count count && leb block_min_gas_uplp gas
            then true
            else le_int (pos block_max_wait_sec) oldest_wait;
        mempool_count = count;
        mempool_gas_uplp = gas;
        block_gas_cap_uplp = block_gas_cap_uplp;
        min_fee_uplp = calculate_fee_from_load count;
        oldest_mempool_wait_sec = oldest_wait;
      }
