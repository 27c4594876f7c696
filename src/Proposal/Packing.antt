-- ===== src/Proposal/Packing.antt =====
-- src/core/block_proposal.rs: the transactions of a block.
pub mod Senders
pub mod Steps
pub mod Chosen
use Prim.Native.String.{String}
use platarium_core.Base.{
  ℕ, zero, suc, ◌+◌, Bool, true, false, ◌&&◌, ◌||◌, not, Option, none, some, List, [], ◌∷◌, ◌++◌,
  any, is_empty, length, ltb, leb, ◌==◌, if◌then◌else◌, u64_mod, u128_mod, wrapping_add,
  saturating_add, Result, ok, err, ◌>>◌, ◌>>=◌, guard, PlatariumError, insufficient_balance, other,
  stale_nonce, nonce_pending, nonce_gap, fee_below_minimum, insufficient_fee_budget,
}
use platarium_core.Data.Ord.{◌==◌ as same, string_eq, string_ord, nat_ord, pair_ord}
use platarium_core.Data.Map.{HashMap, get, get_or_zero, insert, contains_key}
use platarium_core.Data.Sort.{sort_by}
use platarium_core.Data.Parse.{codes, parse_uint}
use platarium_core.Data.Int.{ℤ, pos, negsuc, lt_int, le_int, sub_nat}
use platarium_core.Asset.{plp, is_plp}
use platarium_core.Crypto.{Crypto}
use platarium_core.Fee.{calculate_fee_from_load}
use platarium_core.Json.{Json}
use platarium_core.State.{State, get_nonce, get_asset_balance, fee_spendable_uplp}
use platarium_core.Transaction.{Transaction, TransactionHashData}
use platarium_core.Transaction.Gateway.{from_gateway_json, require}
use platarium_core.Execution.{validate_transaction, check_transaction_applicability}
use platarium_core.Proposal.{
  SnapshotTxFields, MempoolSnapshotEntry, MempoolAdmitResult, BlockProposalStatus,
  SelectBlockTxsResult, block_gas_cap_uplp, block_min_tx_count, block_min_gas_uplp,
  block_max_wait_sec, block_max_tx_count, faucet_address, mempool_max_nonce_gap, fee_uplp_u64,
  parse_u128_value, unwrap_or_nat, is_ordinary,
}

-- `entry(k).or_insert_with(|| v)`
abbrev pub or_insert : HashMap String ℕ → String → ℕ → HashMap String ℕ
or_insert m k v = if contains_key m k then m else insert m k v

module _ {Value : Type 0} where
  abbrev pub note_sender : State → HashMap String ℕ → MempoolSnapshotEntry Value → HashMap String ℕ
  note_sender s m e =
      if is_ordinary e.tx.from then or_insert m e.tx.from (get_nonce s e.tx.from) else m

  unfoldable pub chain_nonces :
      State → HashMap String ℕ → List (MempoolSnapshotEntry Value) → HashMap String ℕ
  chain_nonces s m [] = m
  chain_nonces s m (e ∷ es) = chain_nonces s (note_sender s m e) es

pub record Selection : Type 0 where
  pub next_nonce : HashMap String ℕ
  pub gas_used : ℕ
  pub hashes : List String

module _ {Value : Type 0} (j : Json Value) where
  -- `push`, the gas, and the sender's next nonce
  abbrev pub take_entry : Selection → MempoolSnapshotEntry Value → Selection
  take_entry st e = record {
    next_nonce =
        if same e.tx.from ""
        then st.next_nonce
        else insert st.next_nonce e.tx.from (wrapping_add u64_mod e.tx.nonce 1);
    gas_used = wrapping_add u64_mod st.gas_used (fee_uplp_u64 j e.tx);
    hashes = st.hashes ++ e.tx.hash ∷ [];
  }

  -- The tests that make the loop pass an entry over
  abbrev pub wrong_nonce : Selection → MempoolSnapshotEntry Value → Bool
  wrong_nonce st e =
      is_ordinary e.tx.from && not (e.tx.nonce == get_or_zero st.next_nonce e.tx.from)

  abbrev pub over_cap : Selection → MempoolSnapshotEntry Value → Bool
  over_cap st e = ltb block_gas_cap_uplp (saturating_add u64_mod st.gas_used (fee_uplp_u64 j e.tx))

  unfoldable pub select_loop : Selection → List (MempoolSnapshotEntry Value) → Selection
  unfolding fee_uplp_u64
  select_loop st [] = st
  select_loop st (e ∷ es) =
      let skipped = select_loop st es in
      let taken = select_loop (take_entry st e) es in
      if leb block_max_tx_count (length st.hashes)
      then st
      else if wrong_nonce st e
      then skipped
      else if over_cap st e
      then skipped
      else taken

  unfoldable pub select_block_txs : State → List (MempoolSnapshotEntry Value) → SelectBlockTxsResult
  unfolding select_loop chain_nonces
  select_block_txs s mempool =
      let start : Selection = record {
        next_nonce = chain_nonces s [] mempool;
        gas_used = 0;
        hashes = [];
      } in
      let final = select_loop start mempool in
      record {
        tx_count = length final.hashes;
        hashes = final.hashes;
        gas_used = final.gas_used;
        gas_cap = block_gas_cap_uplp;
      }
