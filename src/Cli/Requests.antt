-- ===== src/Cli/Requests.antt =====
-- src/main.rs with src/core/core_rpc.rs: a command and the request with the same arguments.
pub mod Agree
use mathlib.Core.Path.{subst, fun_ext}
use Prim.Native.String.{String}
use platarium_core.Base.{
  ℕ, ◌<◌, ◌^◌, ◌%◌, ◌≡◌, refl, ap, ◌∙◌, sym, Bool, true, false, Option, none, some, Result, ok, err,
  ◌>>=◌, ◌>>◌, inl, inr, >>=-eq-ok, Result-cases, arith,
}
use platarium_core.Data.Int.{ℤ}
use platarium_core.Crypto.Signing.{DualSignature, sign_with_both_keys}
use platarium_core.Rpc.{run, dispatch_rpc, validate_tx_method}
use platarium_core.Transaction.Gateway.{require}
use platarium_core.Rpc.Effects.{World, Libraries, Reply, map_ok, answer, on_file, on_store}
use platarium_core.Rpc.Committee.{percent_method, count_method, select_committee_method}
use platarium_core.Rpc.Methods.{Method, method_of}
use platarium_core.Rpc.Params.{param_str, param_opt_str, param_u64, param_i64, param_bool}
use platarium_core.Rpc.Wallet.{
  or_else, both, generate_keys_method, verify_signature_method, sign_message_method,
  sign_transaction_method,
}
use platarium_core.Rpc.Wallet.Signed.{sign_with_both_keys-dual}
use platarium_core.Cli.{Commands, run_command}
use platarium_core.Cli.Arguments.{resolve_cli_json_arg, read_optional}
use platarium_core.Cli.Files.{
  handle_validate_tx, handle_state_init, handle_state_query, handle_state_validate_tx,
  handle_state_apply_tx, handle_state_credit, handle_state_root, handle_l1_verify_txs,
  handle_assemble_block, handle_mempool_admit, handle_select_block_txs,
}
use platarium_core.Cli.Stores.{
  handle_rocks_get_head, handle_rocks_get_tx, handle_rocks_get_block, handle_rocks_get_account,
  handle_rocks_list_address_txs, handle_rocks_commit_block, handle_rocks_list_snapshots,
  handle_rocks_bootstrap_snapshot, handle_migrate_json_to_rocks,
}
use platarium_core.Cli.Wallet.{
  check_mnemonic, handle_select_committee, handle_generate_keys, handle_sign_message,
  handle_verify_signature, handle_sign_transaction,
}

-- The request's method for a command
abbrev pub method_for : Commands → Method
method_for (Commands.selection_percent_from_load _) = Method.selection_percent_from_load
method_for (Commands.committee_count _ _) = Method.committee_count
method_for (Commands.select_committee _ _ _) = Method.select_committee
method_for Commands.generate_mnemonic = Method.generate_mnemonic
method_for (Commands.generate_keys _ _ _ _) = Method.generate_keys
method_for (Commands.sign_message _ _ _) = Method.sign_message
method_for (Commands.verify_signature _ _ _) = Method.verify_signature
method_for (Commands.validate_tx _ _) = Method.validate_tx
method_for (Commands.state_init _) = Method.state_init
method_for (Commands.state_query _ _ _) = Method.state_query
method_for (Commands.state_validate_tx _ _) = Method.state_validate_tx
method_for (Commands.state_apply_tx _ _) = Method.state_apply_tx
method_for (Commands.state_credit _ _ _ _ _) = Method.state_credit
method_for (Commands.state_root _) = Method.state_root
method_for (Commands.l1_verify_txs _ _) = Method.l1_verify_txs
method_for (Commands.l1_process_votes _) = Method.l1_process_votes
method_for (Commands.l2_process_votes _) = Method.l2_process_votes
method_for (Commands.assemble_block _ _ _ _ _ _) = Method.assemble_block
method_for (Commands.min_fee_from_load _) = Method.min_fee_from_load
method_for (Commands.mempool_admit _ _ _) = Method.mempool_admit
method_for (Commands.block_proposal_status _ _) = Method.block_proposal_status
method_for (Commands.select_block_txs _ _) = Method.select_block_txs
method_for (Commands.rocks_get_head _) = Method.rocks_get_head
method_for (Commands.rocks_get_tx _ _) = Method.rocks_get_tx
method_for (Commands.rocks_get_block _ _) = Method.rocks_get_block
method_for (Commands.rocks_get_account _ _) = Method.rocks_get_account
method_for (Commands.rocks_list_address_txs _ _) = Method.rocks_list_address_txs
method_for (Commands.rocks_commit_block _ _) = Method.rocks_commit_block
method_for (Commands.rocks_list_snapshots _) = Method.rocks_list_snapshots
method_for (Commands.rocks_bootstrap_snapshot _ _) = Method.rocks_bootstrap_snapshot
method_for (Commands.migrate_json_to_rocks _ _ _) = Method.migrate_json_to_rocks
method_for (Commands.sign_transaction _ _ _ _ _ _ _ _ _ _) = Method.sign_transaction

module _ {Value Db Mnemonic Node Key Secret Signature : Type 0}
    (l : Libraries Value Db Mnemonic Node Key Secret Signature) (read : String → Result String)
    (params : Value) where
  open l use {json, requests}

  abbrev Given : String → String → Type 0
  Given key s = param_str json requests params key ≡ ok s

  abbrev Optional : String → Option String → Type 0
  Optional key s = param_opt_str json requests params key ≡ s

  abbrev Number : String → ℕ → Type 0
  Number key n = param_u64 json requests params key ≡ ok n

  abbrev Integer : String → ℤ → Type 0
  Integer key z = param_i64 json requests params key ≡ ok z

  -- The argument is the parameter, or names a file that holds it.
  abbrev Spilled : String → String → Type 0
  Spilled key arg = (s : String) × (resolve_cli_json_arg read arg ≡ ok s) × Given key s

  -- The parameters of a request carry the arguments of a command.
  abbrev pub Carries : Commands → Type 0
  Carries (Commands.selection_percent_from_load load_pct) = Number "load_pct" load_pct
  Carries (Commands.committee_count candidates load_pct) =
      Number "candidates" candidates × Number "load_pct" load_pct
  Carries (Commands.select_committee candidates seed_hex n) =
      Spilled "candidates" candidates × Given "seed_hex" seed_hex × Number "count" n
  Carries Commands.generate_mnemonic = Unit {0}
  Carries (Commands.generate_keys mnemonic alphanumeric seed_index path) =
      Given "mnemonic" mnemonic
      × Optional "alphanumeric" alphanumeric
      × Number "seed_index" seed_index
      × Optional "path" path
      × (seed_index < 2 ^ 32)
  Carries (Commands.sign_message message mnemonic alphanumeric) =
      Spilled "message" message × Given "mnemonic" mnemonic × Given "alphanumeric" alphanumeric
  Carries (Commands.verify_signature message signature pubkey) =
      Given "message" message × Given "signature" signature × Given "pubkey" pubkey
  Carries (Commands.validate_tx tx none) = Spilled "tx" tx × Optional "state_file" none
  Carries (Commands.validate_tx tx (some path)) =
      Spilled "tx" tx × Optional "state_file" (some path)
  Carries (Commands.state_init path) = Given "state_file" path
  Carries (Commands.state_query path address asset) =
      Given "state_file" path × Given "address" address × Optional "asset" (some asset)
  Carries (Commands.state_validate_tx path tx) = Given "state_file" path × Spilled "tx" tx
  Carries (Commands.state_apply_tx path tx) = Given "state_file" path × Spilled "tx" tx
  Carries (Commands.state_credit path address plp uplp testnet) =
      Given "state_file" path
      × Given "address" address
      × Number "plp" plp
      × Number "uplp" uplp
      × (param_bool json requests params "testnet" ≡ testnet)
  Carries (Commands.state_root path) = Given "state_file" path
  Carries (Commands.l1_verify_txs path txs) = Given "state_file" path × Spilled "txs" txs
  Carries (Commands.l1_process_votes votes) = Spilled "votes" votes
  Carries (Commands.l2_process_votes votes) = Spilled "votes" votes
  Carries (Commands.assemble_block path number previous_hash timestamp tx_hashes producer_id) =
      Given "state_file" path
      × Number "block_number" number
      × Given "previous_hash" previous_hash
      × Integer "timestamp" timestamp
      × Spilled "tx_hashes" tx_hashes
      × Given "producer_id" producer_id
  Carries (Commands.min_fee_from_load pending) = Number "pending_count" pending
  Carries (Commands.mempool_admit path tx mempool_txs) =
      Given "state_file" path × Spilled "tx" tx × Spilled "mempool_txs" mempool_txs
  Carries (Commands.block_proposal_status mempool_txs now) =
      Spilled "mempool_txs" mempool_txs × Integer "now_unix" now
  Carries (Commands.select_block_txs path mempool_txs) =
      Given "state_file" path × Spilled "mempool_txs" mempool_txs
  Carries (Commands.rocks_get_head path) = Given "db_path" path
  Carries (Commands.rocks_get_tx path tx_hash) = Given "db_path" path × Given "tx_hash" tx_hash
  Carries (Commands.rocks_get_block path height) = Given "db_path" path × Number "height" height
  Carries (Commands.rocks_get_account path address) = Given "db_path" path × Given "address" address
  Carries (Commands.rocks_list_address_txs path address) =
      Given "db_path" path × Given "address" address
  Carries (Commands.rocks_commit_block path commit) = Given "db_path" path × Given "commit" commit
  Carries (Commands.rocks_list_snapshots path) = Given "db_path" path
  Carries (Commands.rocks_bootstrap_snapshot path snapshot) =
      Given "db_path" path × Given "snapshot" snapshot
  Carries (Commands.migrate_json_to_rocks path chain_file accounts_file) =
      Given "db_path" path
      × ((chain : String) × (read chain_file ≡ ok chain) × Given "chain_json" chain)
      × ((accounts : Option String) × (read_optional read accounts_file ≡ ok accounts)
          × Optional "accounts_json" accounts)
  Carries (Commands.sign_transaction from to asset amount fee nonce reads writes mnemonic part) =
      Given "from" from
      × Given "to" to
      × Optional "asset" (some asset)
      × Number "amount" amount
      × Number "fee_uplp" fee
      × Number "nonce" nonce
      × Optional "reads" (some reads)
      × Optional "writes" (some writes)
      × Given "mnemonic" mnemonic
      × Given "alphanumeric" part
