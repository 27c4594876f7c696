-- ===== src/Cli.antt =====
-- src/main.rs: the commands of the command line. The external clap reads them from the arguments,
-- with the default values. `Serve` is left out: it starts the server of Rpc.Serve on a socket.
pub mod Arguments
pub mod Wallet
pub mod Files
pub mod Stores
pub mod Requests
use Prim.Native.String.{String}
use platarium_core.Base.{panic, ℕ, Bool, true, false, Option, Result, ok, err, ◌>>=◌}
use platarium_core.Data.Int.{ℤ}
use platarium_core.Consensus
use platarium_core.Consensus.{status_from_json}
use platarium_core.Fee.{calculate_fee_from_load}
use platarium_core.Keys
use platarium_core.Rpc.{pair_reply}
use platarium_core.Rpc.Effects.{World, Libraries, Reply, map_ok, answer, with_request}
use platarium_core.Selection
use platarium_core.Selection.{selection_percent_from_load_pct}
use platarium_core.Cli.Arguments.{resolve_cli_json_arg}
use platarium_core.Cli.Files.{
  handle_validate_tx, handle_state_init, handle_state_query, handle_state_validate_tx,
  handle_state_apply_tx, handle_state_credit, handle_state_root, handle_l1_verify_txs,
  handle_assemble_block, handle_mempool_admit, handle_select_block_txs,
}
use platarium_core.Cli.Stores.{
  handle_rocks_get_head, handle_rocks_get_tx, handle_rocks_get_block, handle_rocks_get_account,
  handle_rocks_list_address_txs, handle_rocks_commit_block, handle_rocks_list_snapshots,
  handle_rocks_bootstrap_snapshot, handle_migrate_json_to_rocks,
}
use platarium_core.Cli.Wallet.{
  handle_select_committee, handle_generate_keys, handle_sign_message, handle_verify_signature,
  handle_sign_transaction,
}

pub data Commands : Type 0 where
  selection_percent_from_load : ℕ → Commands
  committee_count : ℕ → ℕ → Commands
  select_committee : String → String → ℕ → Commands
  generate_mnemonic : Commands
  generate_keys : String → Option String → ℕ → Option String → Commands
  sign_message : String → String → String → Commands
  verify_signature : String → String → String → Commands
  validate_tx : String → Option String → Commands
  state_init : String → Commands
  state_query : String → String → String → Commands
  state_validate_tx : String → String → Commands
  state_apply_tx : String → String → Commands
  state_credit : String → String → ℕ → ℕ → Bool → Commands
  state_root : String → Commands
  l1_verify_txs : String → String → Commands
  l1_process_votes : String → Commands
  l2_process_votes : String → Commands
  assemble_block : String → ℕ → String → ℤ → String → String → Commands
  min_fee_from_load : ℕ → Commands
  mempool_admit : String → String → String → Commands
  block_proposal_status : String → ℤ → Commands
  select_block_txs : String → String → Commands
  rocks_get_head : String → Commands
  rocks_get_tx : String → String → Commands
  rocks_get_block : String → ℕ → Commands
  rocks_get_account : String → String → Commands
  rocks_list_address_txs : String → String → Commands
  rocks_commit_block : String → String → Commands
  rocks_list_snapshots : String → Commands
  rocks_bootstrap_snapshot : String → String → Commands
  migrate_json_to_rocks : String → String → Option String → Commands
  sign_transaction :
      String → String → String → ℕ → ℕ → ℕ → String → String → String → String → Commands

-- The status that the process ends with, 101 after a panic: a signature that is not valid is printed, and is no success.
abbrev pub exit_code : Result Reply → ℕ
exit_code (err (panic message)) = 101
exit_code (err e) = 1
exit_code (ok (Reply.verified false)) = 1
exit_code (ok _) = 0

module _ {Value Db Mnemonic Node Key Secret Signature : Type 0}
    (l : Libraries Value Db Mnemonic Node Key Secret Signature) (read : String → Result String)
    (w : World Db) where
  abbrev pub handle_l1_process_votes : String → World Db × Result Reply
  handle_l1_process_votes votes = answer w (
      resolve_cli_json_arg read votes >>= λ votes_text.
      map_ok Reply.l1_outcome (Consensus.l1_process_votes l.json l.votes votes_text))

  abbrev pub handle_l2_process_votes : String → World Db × Result Reply
  handle_l2_process_votes votes = answer w (
      resolve_cli_json_arg read votes >>= λ votes_text.
      map_ok Reply.l2_outcome (Consensus.l2_process_votes l.json l.votes votes_text))

  abbrev pub handle_block_proposal_status : String → ℤ → World Db × Result Reply
  handle_block_proposal_status mempool_txs now = answer w (
      resolve_cli_json_arg read mempool_txs >>= λ mempool_text.
      map_ok Reply.proposal (status_from_json l.json l.pools mempool_text now))

  -- The `match` of `main`
  unfoldable pub run_command : Commands → World Db × Result Reply
  run_command (selection_percent_from_load load_pct) =
      answer w (map_ok Reply.percent (selection_percent_from_load_pct load_pct))
  run_command (committee_count candidates load_pct) =
      answer w (ok (Reply.count (Selection.committee_count candidates load_pct)))
  run_command (select_committee candidates seed_hex n) =
      answer w (map_ok Reply.committee (handle_select_committee l read candidates seed_hex n))
  run_command generate_mnemonic =
      answer w (map_ok (pair_reply Reply.mnemonic) (Keys.generate_mnemonic l.keys l.random))
  run_command (generate_keys mnemonic alphanumeric seed_index path) =
      answer w
        (map_ok Reply.generated (handle_generate_keys l mnemonic alphanumeric seed_index path))
  run_command (sign_message message mnemonic alphanumeric) =
      answer w (map_ok Reply.signed (handle_sign_message l read message mnemonic alphanumeric))
  run_command (verify_signature message signature pubkey) =
      answer w (map_ok Reply.verified (handle_verify_signature l message signature pubkey))
  run_command (validate_tx tx state_file) = handle_validate_tx l read w tx state_file
  run_command (state_init path) = handle_state_init l read w path
  run_command (state_query path address asset) = handle_state_query l read w path address asset
  run_command (state_validate_tx path tx) = handle_state_validate_tx l read w path tx
  run_command (state_apply_tx path tx) = handle_state_apply_tx l read w path tx
  run_command (state_credit path address plp uplp testnet) =
      handle_state_credit l read w path address plp uplp testnet
  run_command (state_root path) = handle_state_root l read w path
  run_command (l1_verify_txs path txs) = handle_l1_verify_txs l read w path txs
  run_command (l1_process_votes votes) = handle_l1_process_votes votes
  run_command (l2_process_votes votes) = handle_l2_process_votes votes
  run_command (assemble_block path number previous_hash timestamp tx_hashes producer_id) =
      handle_assemble_block l read w path number previous_hash timestamp tx_hashes producer_id
  run_command (min_fee_from_load pending) =
      answer w (ok (Reply.min_fee (calculate_fee_from_load pending)))
  run_command (mempool_admit path tx mempool_txs) =
      handle_mempool_admit l read w path tx mempool_txs
  run_command (block_proposal_status mempool_txs now) = handle_block_proposal_status mempool_txs now
  run_command (select_block_txs path mempool_txs) =
      handle_select_block_txs l read w path mempool_txs
  run_command (rocks_get_head path) = handle_rocks_get_head l w path
  run_command (rocks_get_tx path tx_hash) = handle_rocks_get_tx l w path tx_hash
  run_command (rocks_get_block path height) = handle_rocks_get_block l w path height
  run_command (rocks_get_account path address) = handle_rocks_get_account l w path address
  run_command (rocks_list_address_txs path address) = handle_rocks_list_address_txs l w path address
  run_command (rocks_commit_block path commit) = handle_rocks_commit_block l w path commit
  run_command (rocks_list_snapshots path) = handle_rocks_list_snapshots l w path
  run_command (rocks_bootstrap_snapshot path snapshot) =
      handle_rocks_bootstrap_snapshot l w path snapshot
  run_command (migrate_json_to_rocks path chain_file accounts_file) =
      handle_migrate_json_to_rocks l read w path chain_file accounts_file
  run_command (sign_transaction from to asset amount fee nonce reads writes mnemonic part) =
      answer w (
        map_ok Reply.signed_transaction
          (handle_sign_transaction l from to asset amount fee nonce reads writes mnemonic part))
