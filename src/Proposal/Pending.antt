-- ===== src/Proposal/Pending.antt =====
-- src/core/block_proposal.rs: what a sender's pending transactions reserve, and the nonces they
-- take.
pub mod Nonces
use Prim.Native.String.{String}
use platarium_core.Base.{
  ℕ, zero, suc, ◌+◌, Bool, true, false, ◌&&◌, ◌||◌, not, Option, none, some, List, [], ◌∷◌, ◌++◌,
  any, is_empty, length, ltb, leb, ◌==◌, if◌then◌else◌, u64_mod, u128_mod, wrapping_add,
  saturating_add, Result, ok, err, ◌>>◌, ◌>>=◌, guard, PlatariumError, insufficient_balance, other,
  stale_nonce, nonce_pending, nonce_gap, fee_below_minimum, insufficient_fee_budget,
}
use platarium_core.Data.Ord.{◌==◌ as same, string_eq, string_ord, nat_ord, pair_ord}
use platarium_core.Data.Map.{HashMap, get, get_or_zero, insert, contains_key}
use platarium_core.Data.Sort.{sort_by}
use platarium_core.Data.Parse.{codes, parse_uint}
use platarium_core.Data.Int.{ℤ, pos, negsuc, lt_int, le_int, sub_nat}
use platarium_core.Asset.{plp, is_plp}
use platarium_core.Crypto.{Crypto}
use platarium_core.Fee.{calculate_fee_from_load}
use platarium_core.Json.{Json}
use platarium_core.State.{State, get_nonce, get_asset_balance, fee_spendable_uplp}
use platarium_core.Transaction.{Transaction, TransactionHashData}
use platarium_core.Transaction.Gateway.{from_gateway_json, require}
use platarium_core.Execution.{validate_transaction, check_transaction_applicability}
use platarium_core.Proposal.{
  SnapshotTxFields, MempoolSnapshotEntry, MempoolAdmitResult, BlockProposalStatus,
  SelectBlockTxsResult, block_gas_cap_uplp, block_min_tx_count, block_min_gas_uplp,
  block_max_wait_sec, block_max_tx_count, faucet_address, mempool_max_nonce_gap, fee_uplp_u64,
  parse_u128_value, unwrap_or_nat, is_ordinary,
}

module _ {Value : Type 0} (j : Json Value) where
  -- The PLP and the fees that the sender's pending transactions reserve.
  unfoldable pub pending_reserve : List (MempoolSnapshotEntry Value) → String → ℕ × ℕ
  unfolding fee_uplp_u64 parse_u128_value
  pending_reserve [] from = (0, 0)
  pending_reserve (e ∷ es) from =
      let rest = pending_reserve es from in
      let amount = unwrap_or_nat 0 (parse_u128_value j e.tx.amount) in
      let plp_kept =
        if same e.tx.asset "PLP" || same e.tx.asset ""
        then wrapping_add u128_mod amount rest.0
        else rest.0 in
      if same e.tx.from from
      then (plp_kept, wrapping_add u128_mod (fee_uplp_u64 j e.tx) rest.1)
      else rest

module _ {Value : Type 0} where
  unfoldable pub nonce_already_pending : List (MempoolSnapshotEntry Value) → String → ℕ → Bool
  nonce_already_pending [] from nonce = false
  nonce_already_pending (e ∷ es) from nonce =
      (same e.tx.from from && e.tx.nonce == nonce) || nonce_already_pending es from nonce

  -- The loop of `contiguous_next_nonce`, on fuel.
  unfoldable pub contiguous_loop : ℕ → List (MempoolSnapshotEntry Value) → String → ℕ → ℕ
  unfolding nonce_already_pending
  contiguous_loop zero mempool from next = next
  contiguous_loop (suc fuel) mempool from next =
      let rest = contiguous_loop fuel mempool from (wrapping_add u64_mod next 1) in
      if nonce_already_pending mempool from next then rest else next

  unfoldable pub contiguous_next_nonce : List (MempoolSnapshotEntry Value) → String → ℕ → ℕ
  unfolding contiguous_loop
  contiguous_next_nonce mempool from chain_nonce =
      contiguous_loop (suc (length mempool)) mempool from chain_nonce
