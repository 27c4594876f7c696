-- ===== src/Assembly.antt =====
-- src/core/block_assembly.rs: leaders, limits, blocks and the votes on them (L2).
pub mod Merkle
pub mod Rotation
pub mod Finality
use Prim.Native.String.{String}
use platarium_core.Base.{
  ℕ, zero, suc, ◌+◌, ◌*◌, ◌/◌, ◌%◌, min, max, Bool, true, false, Option, none, some, List, [], ◌∷◌,
  ◌++◌, map, leb, ◌==◌, if◌then◌else◌, length, get_elem?, is_empty, u64_mod, saturating_mul, Result,
  ok, err, other,
}
use platarium_core.Data.Ord.{Ord}
use platarium_core.Data.Sort.Plain.{sort, bytes_ord}
use platarium_core.Data.Bytes.{as_bytes, to_le_bytes}
use platarium_core.State.Snapshot.{StateSnapshot, compute_state_root}
use platarium_core.Node.{NodeId}
use platarium_core.Node.Registry.{NodeRegistry}
use platarium_core.Votes.{Ballot, reaches, to_penalize, apply_l1_penalties}

abbrev pub l2_confirm_threshold_pct : ℕ
l2_confirm_threshold_pct = 70

abbrev pub block_time_min_sec : ℕ
block_time_min_sec = 2

abbrev pub block_time_max_sec : ℕ
block_time_max_sec = 5

abbrev pub default_max_txs_per_block : ℕ
default_max_txs_per_block = 500

abbrev pub default_max_block_size : ℕ
default_max_block_size = 256 * 1024

-- `usize` has 64 bits, so the cast of the height keeps it.
unfoldable pub block_leader_for_height : ℕ → List NodeId → Option NodeId
block_leader_for_height block_number l2_validators =
    if is_empty l2_validators
    then none
    else get_elem? l2_validators (block_number % length l2_validators)

unfoldable pub block_leader_index_for_height : ℕ → ℕ → ℕ
block_leader_index_for_height block_number num_validators =
    if num_validators == 0 then 0 else block_number % num_validators

unfoldable pub max_transactions_per_block : ℕ → ℕ → ℕ → ℕ
max_transactions_per_block mempool_size avg_tps network_load_pct =
    if avg_tps == 0
    then min default_max_txs_per_block mempool_size
    else let cap = saturating_mul u64_mod avg_tps block_time_max_sec in
      min (min default_max_txs_per_block cap) (max mempool_size 1)

unfoldable pub max_block_size_bytes : ℕ → ℕ → ℕ → ℕ
max_block_size_bytes mempool_size avg_tps network_load_pct =
    let base = default_max_block_size in
    if leb 80 network_load_pct
    then base / 2
    else if leb 50 network_load_pct
    then (base * 3) / 4
    else base

unfoldable pub max_block_time_sec : ℕ → ℕ
max_block_time_sec network_load_pct =
    if leb 80 network_load_pct
    then block_time_min_sec
    else if leb 50 network_load_pct
    then (block_time_min_sec + block_time_max_sec) / 2
    else block_time_max_sec

-- The external sha2 and hex libraries. `hex_decode` fails on a text that is not hexadecimal.
pub record Hasher : Type 0 where
  pub sha256 : List ℕ → List ℕ
  pub hex_encode : List ℕ → String
  pub hex_decode : String → Option (List ℕ)

-- `Block`
pub record Block : Type 0 where
  pub block_number : ℕ
  pub previous_hash : String
  pub timestamp : ℕ
  pub transaction_hashes : List String
  pub merkle_root : String
  pub state_root : String
  pub block_hash : String
  pub producer_id : NodeId
  pub producer_sig : String

module _ (h : Hasher) where
  -- The hashes that decode to 32 bytes; the others are dropped.
  abbrev pub leaves : List String → List (List ℕ)
  leaves [] = []
  leaves (tx_hash ∷ tx_hashes) = elim (h.hex_decode tx_hash) [
    | none ↦ leaves tx_hashes
    | some v ↦ if length v == 32 then v ∷ leaves tx_hashes else leaves tx_hashes
  ]

  -- The loop over `chunks(2)`; a last chunk of one hash is hashed with itself.
  abbrev pub parents : List (List ℕ) → List (List ℕ)
  parents [] = []
  parents (a ∷ []) = h.sha256 (a ++ a) ∷ []
  parents (a ∷ b ∷ rest) = h.sha256 (a ++ b) ∷ parents rest

  -- `while layer.len() > 1`, on fuel
  unfoldable pub merkle_loop : ℕ → List (List ℕ) → List (List ℕ)
  merkle_loop fuel [] = []
  merkle_loop fuel (a ∷ []) = a ∷ []
  merkle_loop zero (a ∷ b ∷ rest) = a ∷ b ∷ rest
  merkle_loop (suc fuel) (a ∷ b ∷ rest) = merkle_loop fuel (sort (parents (a ∷ b ∷ rest)))

  abbrev pub root_of : List (List ℕ) → String
  root_of [] = "0"
  root_of (a ∷ rest) = h.hex_encode a

  -- A layer has less than half the length of the one below, so the length of the first is fuel enough.
  unfoldable pub compute_merkle_root : List String → String
  unfolding merkle_loop
  compute_merkle_root tx_hashes =
      let layer = sort (leaves tx_hashes) in root_of (merkle_loop (length layer) layer)

  -- The timestamp is the unsigned 64-bit number with the bytes of the signed one.
  unfoldable pub compute_block_hash_inner : ℕ → String → ℕ → String → String → String → String
  compute_block_hash_inner block_number previous_hash timestamp merkle_root state_root producer_id =
      h.hex_encode (
        h.sha256 (
          to_le_bytes 8 block_number
          ++ (as_bytes previous_hash
              ++ (to_le_bytes 8 timestamp
                  ++ (as_bytes merkle_root ++ (as_bytes state_root ++ as_bytes producer_id))))))

  unfoldable pub assemble_block :
      ℕ → String → ℕ → List String → StateSnapshot → NodeId → String → Block
  unfolding compute_merkle_root compute_block_hash_inner compute_state_root
  assemble_block block_number previous_hash timestamp transaction_hashes state_snapshot producer_id
        producer_sig =
      let merkle_root = compute_merkle_root transaction_hashes in
      let state_root = compute_state_root (λ bytes. h.hex_encode (h.sha256 bytes)) state_snapshot in
      record {
        block_number = block_number;
        previous_hash = previous_hash;
        timestamp = timestamp;
        transaction_hashes = transaction_hashes;
        merkle_root = merkle_root;
        state_root = state_root;
        block_hash =
            compute_block_hash_inner block_number previous_hash timestamp merkle_root state_root
              producer_id;
        producer_id = producer_id;
        producer_sig = producer_sig;
      }

pub data BlockConfirmationResult : Type 0 where
  confirmed rejected : BlockConfirmationResult

unfoldable pub block_finalized : BlockConfirmationResult → Bool
block_finalized confirmed = true
block_finalized rejected = false

unfoldable pub process_l2_block_votes : List Ballot → Result (BlockConfirmationResult × List NodeId)
process_l2_block_votes votes =
    if is_empty votes
    then err (other "No L2 votes")
    else ok
        (if reaches l2_confirm_threshold_pct votes then confirmed else rejected, to_penalize votes)

unfoldable pub apply_l2_block_penalties :
    NodeRegistry → List NodeId → NodeRegistry × Result (Unit {0})
unfolding apply_l1_penalties
apply_l2_block_penalties registry to_penalize = apply_l1_penalties registry to_penalize
