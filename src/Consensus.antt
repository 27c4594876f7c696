-- ===== src/Consensus.antt =====
-- src/core/consensus_cli.rs and src/core/block_proposal_cli.rs: the verification of a pack of
-- transactions, the votes in JSON, and block assembly and proposal on the state's file.
pub mod Replay
use Prim.Native.String.{String}
use platarium_core.Base.{
  ℕ, Bool, true, false, Option, none, some, List, [], ◌∷◌, ◌++◌, length, Result, ok, err, ◌>>=◌,
  PlatariumError, other, if◌then◌else◌,
}
use platarium_core.Crypto.{Crypto}
use platarium_core.Json.{Json}
use platarium_core.Data.Int.{ℤ}
use platarium_core.Execution.{apply_transaction}
use platarium_core.Fee.{calculate_fee_from_load}
use platarium_core.Node.{NodeId}
use platarium_core.State.{State}
use platarium_core.State.Snapshot.{create_snapshot}
use platarium_core.StateFile.{StateFileData, load_state_file}
use platarium_core.Transaction.{Transaction, TransactionHashData}
use platarium_core.Transaction.Gateway.{from_gateway_json, require}
use platarium_core.Votes.{
  Ballot, Vote, confirm, reject, ConfirmationResult, verify_tx_for_l1, process_l1_confirmation,
}
use platarium_core.Assembly.{
  Hasher, Block, BlockConfirmationResult, assemble_block, process_l2_block_votes,
}
use platarium_core.Proposal.{
  SnapshotDecoder, parse_mempool_snapshot, MempoolAdmitResult, BlockProposalStatus,
  SelectBlockTxsResult,
}
use platarium_core.Proposal.Admission.{mempool_admit}
use platarium_core.Proposal.Status.{block_proposal_status}
use platarium_core.Proposal.Packing.{select_block_txs}

pub record TxResult : Type 0 where
  pub hash : String
  pub valid : Bool
  pub error : Option PlatariumError

-- The variables of the loop of `l1_verify_txs_json`
pub record Verification : Type 0 where
  pub state : State
  pub all_valid : Bool
  pub first_error : Option PlatariumError
  pub tx_results : List TxResult

abbrev pub or_first : Option PlatariumError → PlatariumError → Option PlatariumError
or_first none e = some e
or_first (some first) e = some first

-- A transaction that is not valid: the state is the one given.
abbrev pub note_failure : Verification → State → String → PlatariumError → Verification
note_failure v s hash e = record {
  state = s;
  all_valid = false;
  first_error = or_first v.first_error e;
  tx_results = v.tx_results ++ record { hash = hash; valid = false; error = some e } ∷ [];
}

abbrev pub note_success : Verification → State → String → Verification
note_success v s hash = record {
  state = s;
  all_valid = v.all_valid;
  first_error = v.first_error;
  tx_results = v.tx_results ++ record { hash = hash; valid = true; error = none } ∷ [];
}

abbrev pub note_applied : Verification → String → State × Result (Unit {0}) → Verification
note_applied v hash (s, ok u) = note_success v s hash
note_applied v hash (s, err e) = note_failure v s hash e

-- The `match` on the verification; the transaction is applied only where it passed.
abbrev pub judge : Verification → String → Result Bool → State × Result (Unit {0}) → Verification
judge v hash (ok true) applied = note_applied v hash applied
judge v hash (ok false) applied = note_failure v v.state hash (other "L1 verification failed")
judge v hash (err e) applied = note_failure v v.state hash e

module _ {Value : Type 0} (j : Json Value) (c : Crypto TransactionHashData) where
  -- The working state moves on with each valid transaction.
  unfoldable pub verify_one : Verification → Transaction → Verification
  unfolding verify_tx_for_l1 apply_transaction
  verify_one v tx = judge v tx.hash (verify_tx_for_l1 c v.state tx) (apply_transaction c v.state tx)

  -- the `match` on the transaction that is read
  unfoldable pub verify_read : Verification → Result Transaction → Verification
  unfolding verify_one
  verify_read v (ok tx) = verify_one v tx
  verify_read v (err e) = note_failure v v.state "" e

  unfoldable pub verify_json : Verification → String → Verification
  unfolding verify_read from_gateway_json
  verify_json v tx_json = verify_read v (from_gateway_json j tx_json)

  unfoldable pub verify_loop : Verification → List String → Verification
  unfolding verify_json
  verify_loop v [] = v
  verify_loop v (tx_json ∷ txs) = verify_loop (verify_json v tx_json) txs

  abbrev pub start : State → Verification
  start s = record { state = s; all_valid = true; first_error = none; tx_results = [] }

  -- `l1_verify_txs_json`, for the contents of the state's file and the array of transactions
  unfoldable pub l1_verify_txs : Option StateFileData → List String → Result Verification
  unfolding load_state_file verify_loop
  l1_verify_txs file txs = load_state_file file >>= λ s. ok (verify_loop (start s) txs)

-- What serde_json decodes for votes: the array, and a Boolean.
pub record VoteDecoder (Value : Type 0) : Type 0 where
  pub array_from_str : String → Option (List Value)
  pub as_bool : Value → Option Bool

module _ {Value : Type 0} (j : Json Value) (d : VoteDecoder Value) where
  -- `get("node_id").or_else(get("nodeId"))`
  abbrev pub voter : Value → Option String
  voter v = elim (j.get v "node_id") [
    | some x ↦ j.as_str x
    | none ↦ elim (j.get v "nodeId") [ none ↦ none | some x ↦ j.as_str x ]
  ]

  abbrev pub vote_of : Value → Vote
  vote_of v = elim (j.get v "yes") [
    | none ↦ reject
    | some x ↦ elim (d.as_bool x) [ some true ↦ confirm | some false ↦ reject | none ↦ reject ]
  ]

  abbrev pub parse_votes : List Value → Result (List Ballot)
  parse_votes [] = ok []
  parse_votes (v ∷ vs) = do
    id ← require "vote missing node_id" (voter v)
    rest ← parse_votes vs
    ok ((id, vote_of v) ∷ rest)

  -- An error of the aggregation is part of the answer.
  unfoldable pub l1_process_votes : String → Result (Result (ConfirmationResult × List NodeId))
  unfolding process_l1_confirmation
  l1_process_votes votes_json = do
    raw ← require "invalid votes JSON" (d.array_from_str votes_json)
    votes ← parse_votes raw
    ok (process_l1_confirmation votes)

  unfoldable pub l2_process_votes : String → Result (Result (BlockConfirmationResult × List NodeId))
  unfolding process_l2_block_votes
  l2_process_votes votes_json = do
    raw ← require "invalid votes JSON" (d.array_from_str votes_json)
    votes ← parse_votes raw
    ok (process_l2_block_votes votes)

-- `assemble_block_json`, for the contents of the state's file and the array of hashes
unfoldable pub assemble_from_file :
    Hasher → Option StateFileData → ℕ → String → ℕ → List String → String → Result Block
unfolding load_state_file assemble_block create_snapshot
assemble_from_file h file block_number previous_hash timestamp tx_hashes producer_id =
    load_state_file file >>= λ s. ok (
      assemble_block h block_number previous_hash timestamp tx_hashes (create_snapshot s)
        producer_id "")

-- src/core/block_proposal_cli.rs, before the answers are printed
module _ {Value : Type 0} (j : Json Value) (d : SnapshotDecoder Value) where
  unfoldable pub admit_from_file :
      Crypto TransactionHashData
      → Option StateFileData
      → String
      → String
      → Result MempoolAdmitResult
  unfolding load_state_file parse_mempool_snapshot mempool_admit
  admit_from_file c file tx_json mempool_json = do
    s ← load_state_file file
    mempool ← parse_mempool_snapshot j d mempool_json
    ok (mempool_admit j c s mempool tx_json)

  unfoldable pub status_from_json : String → ℤ → Result BlockProposalStatus
  unfolding parse_mempool_snapshot block_proposal_status
  status_from_json mempool_json now_unix = parse_mempool_snapshot j d mempool_json >>= λ mempool.
      ok (block_proposal_status j mempool now_unix)

  unfoldable pub select_from_file : Option StateFileData → String → Result SelectBlockTxsResult
  unfolding load_state_file parse_mempool_snapshot select_block_txs
  select_from_file file mempool_json = do
    s ← load_state_file file
    mempool ← parse_mempool_snapshot j d mempool_json
    ok (select_block_txs j s mempool)
