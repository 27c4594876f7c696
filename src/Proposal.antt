-- ===== src/Proposal.antt =====
-- src/core/block_proposal.rs and src/core/consensus_params.rs: which transactions a pool takes in,
-- when a block is proposed, and which transactions it holds.
pub mod Pending
pub mod Status
pub mod Packing
pub mod Admission
use Prim.Native.String.{String}
use platarium_core.Base.{
  ℕ, zero, suc, ◌+◌, Bool, true, false, ◌&&◌, ◌||◌, not, Option, none, some, List, [], ◌∷◌, ◌++◌,
  any, is_empty, length, ltb, leb, ◌==◌, if◌then◌else◌, u64_mod, u128_mod, wrapping_add,
  saturating_add, Result, ok, err, ◌>>◌, ◌>>=◌, guard, PlatariumError, insufficient_balance, other,
  stale_nonce, nonce_pending, nonce_gap, fee_below_minimum, insufficient_fee_budget,
}
use platarium_core.Data.Ord.{◌==◌ as same, string_eq, string_ord, nat_ord, pair_ord}
use platarium_core.Data.Map.{HashMap, get, get_or_zero, insert, contains_key}
use platarium_core.Data.Sort.{sort_by}
use platarium_core.Data.Parse.{codes, parse_uint}
use platarium_core.Data.Int.{ℤ, pos, negsuc, lt_int, le_int, sub_nat}
use platarium_core.Asset.{plp, is_plp}
use platarium_core.Crypto.{Crypto}
use platarium_core.Fee.{calculate_fee_from_load}
use platarium_core.Json.{Json}
use platarium_core.State.{State, get_nonce, get_asset_balance, fee_spendable_uplp}
use platarium_core.Transaction.{Transaction, TransactionHashData}
use platarium_core.Transaction.Gateway.{from_gateway_json, require}
use platarium_core.Execution.{validate_transaction, check_transaction_applicability}

abbrev pub block_gas_cap_uplp : ℕ
block_gas_cap_uplp = 500_000

abbrev pub block_min_tx_count : ℕ
block_min_tx_count = 1

abbrev pub block_min_gas_uplp : ℕ
block_min_gas_uplp = 1

abbrev pub block_max_wait_sec : ℕ
block_max_wait_sec = 5

abbrev pub block_max_tx_count : ℕ
block_max_tx_count = 10_000

abbrev pub faucet_address : String
faucet_address = "faucet"

abbrev pub mempool_max_nonce_gap : ℕ
mempool_max_nonce_gap = 64

pub record SnapshotTxFields (Value : Type 0) : Type 0 where
  pub hash : String
  pub from : String
  pub to : String
  pub asset : String
  pub amount : Value
  pub fee_uplp : Value
  pub fee : Option String
  pub nonce : ℕ
  pub reads : List String
  pub writes : List String
  pub sig_main : String
  pub sig_derived : String
  pub pub_main : Option String
  pub pub_derived : Option String
  pub timestamp : ℤ

pub record MempoolSnapshotEntry (Value : Type 0) : Type 0 where
  pub tx : SnapshotTxFields Value
  pub arrival_index : ℕ
  pub timestamp : ℤ

pub record MempoolAdmitResult : Type 0 where
  pub accepted : Bool
  pub error : Option PlatariumError
  pub min_fee_uplp : ℕ
  pub expected_nonce : ℕ

pub record BlockProposalStatus : Type 0 where
  pub should_propose : Bool
  pub mempool_count : ℕ
  pub mempool_gas_uplp : ℕ
  pub block_gas_cap_uplp : ℕ
  pub min_fee_uplp : ℕ
  pub oldest_mempool_wait_sec : ℤ

pub record SelectBlockTxsResult : Type 0 where
  pub hashes : List String
  pub gas_used : ℕ
  pub gas_cap : ℕ
  pub tx_count : ℕ

-- `or_else` and `unwrap_or` on options
abbrev pub or_else : Option ℕ → Option ℕ → Option ℕ
or_else (some n) o = some n
or_else none o = o

abbrev pub unwrap_or_nat : ℕ → Option ℕ → ℕ
unwrap_or_nat d none = d
unwrap_or_nat d (some n) = n

abbrev pub parse_text : ℕ → Option String → Option ℕ
parse_text w none = none
parse_text w (some s) = parse_uint w (codes s)

-- What serde_json decodes for a snapshot: the array, an integer, and the fields of a transaction
-- (the derived `Deserialize`).
pub record SnapshotDecoder (Value : Type 0) : Type 0 where
  pub array_from_str : String → Option (List Value)
  pub as_i64 : Value → Option ℤ
  pub from_value : Value → Option (SnapshotTxFields Value)

abbrev pub unwrap_or_time : Option ℤ → ℤ
unwrap_or_time none = pos 0
unwrap_or_time (some t) = t

-- Neither the faucet nor an entry without a sender is held to a nonce.
abbrev pub is_ordinary : String → Bool
is_ordinary from = not (same from "") && not (same from faucet_address)

module _ {Value : Type 0} (j : Json Value) where
  unfoldable pub parse_u64_value : Value → Option ℕ
  parse_u64_value v = or_else (j.as_u64 v) (parse_text u64_mod (j.as_str v))

  unfoldable pub parse_u128_value : Value → Option ℕ
  parse_u128_value v = or_else (j.as_u64 v) (parse_text u128_mod (j.as_str v))

  unfoldable pub fee_uplp_u64 : SnapshotTxFields Value → ℕ
  unfolding parse_u64_value
  fee_uplp_u64 tx =
      unwrap_or_nat 0 (or_else (parse_u64_value tx.fee_uplp) (parse_text u64_mod tx.fee))

module _ {Value : Type 0} where
  abbrev pub arrival : MempoolSnapshotEntry Value → ℕ × String
  arrival e = (e.arrival_index, e.tx.hash)

  -- `parse_mempool_snapshot`: an entry without an arrival index takes its position.
  unfoldable pub parse_entries :
      Json Value
      → SnapshotDecoder Value
      → ℕ
      → List Value
      → Result (List (MempoolSnapshotEntry Value))
  parse_entries j d i [] = ok []
  parse_entries j d i (v ∷ vs) = do
    let place : Option ℕ = elim (j.get v "arrival_index") [ none ↦ none | some x ↦ j.as_u64 x ]
    let time : Option ℤ = elim (j.get v "timestamp") [ none ↦ none | some x ↦ d.as_i64 x ]
    tx ← require "invalid mempool entry" (d.from_value v)
    rest ← parse_entries j d (suc i) vs
    ok (
        record { tx = tx; arrival_index = unwrap_or_nat i place; timestamp = unwrap_or_time time }
        ∷ rest)

  unfoldable pub parse_mempool_snapshot :
      Json Value → SnapshotDecoder Value → String → Result (List (MempoolSnapshotEntry Value))
  unfolding parse_entries
  parse_mempool_snapshot j d json = do
    raw ← require "invalid mempool JSON array" (d.array_from_str json)
    out ← parse_entries j d 0 raw
    ok (sort_by arrival out)
