-- ===== src/Cli/Files.antt =====
-- src/main.rs: the commands on a state file.
use Prim.Native.String.{String}
use platarium_core.Base.{ℕ, Bool, Option, none, some, List, Result, ok, ◌>>=◌}
use platarium_core.Data.Int.{ℤ}
use platarium_core.Consensus
use platarium_core.Consensus.{admit_from_file, select_from_file}
use platarium_core.Rpc.{bits, read_file, pair_reply, verdict}
use platarium_core.Rpc.Effects.{
  World, Libraries, Reply, FileAction, reply_with, answer, keep_file, with_request,
}
use platarium_core.StateFile
use platarium_core.StateFile.{StateFileData, load_state_file, init_state_file}
use platarium_core.Transaction.{validate_basic}
use platarium_core.Transaction.Gateway.{from_gateway_json, require}
use platarium_core.Cli.Arguments.{resolve_cli_json_arg}

module _ {Value Db Mnemonic Node Key Secret Signature : Type 0}
    (l : Libraries Value Db Mnemonic Node Key Secret Signature) (read : String → Result String)
    (w : World Db) where
  open l use {json, requests, transactions, hasher}

  abbrev resolve : String → Result String
  resolve = resolve_cli_json_arg read

  abbrev hash_hex : List ℕ → String
  hash_hex bytes = hasher.hex_encode (hasher.sha256 bytes)

  abbrev pub at_file : String → FileAction → World Db × Result Reply
  at_file path act = keep_file l.paths w path (act (w.files path))

  unfoldable pub handle_state_init : String → World Db × Result Reply
  handle_state_init path = at_file path λ file. (some init_state_file, ok (Reply.initialized path))

  unfoldable pub handle_state_query : String → String → String → World Db × Result Reply
  handle_state_query path address asset =
      at_file path
        (read_file (Reply.queried address) (λ file. StateFile.state_query file address asset))

  unfoldable pub handle_state_validate_tx : String → String → World Db × Result Reply
  handle_state_validate_tx path tx = with_request w (resolve tx) λ tx_json. at_file path (
      read_file Reply.validity (λ file. StateFile.state_validate_tx json transactions file tx_json))

  unfoldable pub handle_state_apply_tx : String → String → World Db × Result Reply
  handle_state_apply_tx path tx = with_request w (resolve tx) λ tx_json. at_file path λ file.
      reply_with (pair_reply Reply.applied)
        (StateFile.state_apply_tx json transactions hash_hex file tx_json)

  unfoldable pub handle_state_credit : String → String → ℕ → ℕ → Bool → World Db × Result Reply
  handle_state_credit path address plp uplp testnet = at_file path λ file.
      reply_with Reply.credited (StateFile.state_credit hash_hex file address plp uplp testnet)

  unfoldable pub handle_state_root : String → World Db × Result Reply
  handle_state_root path = at_file path (read_file Reply.rooted (StateFile.state_root hash_hex))

  unfoldable pub handle_validate_tx : String → Option String → World Db × Result Reply
  handle_validate_tx tx none = with_request w (resolve tx) λ tx_json.
      answer w (verdict (from_gateway_json json tx_json >>= λ t. validate_basic transactions t))
  handle_validate_tx tx (some path) = with_request w (resolve tx) λ tx_json. at_file path (
      read_file Reply.validity (λ file. StateFile.state_validate_tx json transactions file tx_json))

  -- The pack is read after the state, from its text.
  unfoldable pub handle_l1_verify_txs : String → String → World Db × Result Reply
  handle_l1_verify_txs path txs = with_request w (resolve txs) λ txs_json. at_file path (
      read_file Reply.verification (λ file. load_state_file file >>= λ s.
      require "invalid txs JSON array" (requests.texts_from_str txs_json) >>= λ pack.
      Consensus.l1_verify_txs json transactions file pack))

  unfoldable pub handle_assemble_block :
      String → ℕ → String → ℤ → String → String → World Db × Result Reply
  handle_assemble_block path block_number previous_hash timestamp tx_hashes producer_id =
      with_request w (resolve tx_hashes) λ hashes_json. at_file path (
        read_file Reply.assembled (λ file. load_state_file file >>= λ s.
        require "invalid tx_hashes JSON" (requests.texts_from_str hashes_json) >>= λ hashes.
        Consensus.assemble_from_file hasher file block_number previous_hash (bits timestamp) hashes
          producer_id))

  unfoldable pub handle_mempool_admit : String → String → String → World Db × Result Reply
  handle_mempool_admit path tx mempool_txs = with_request w (resolve tx) λ tx_json.
      with_request w (resolve mempool_txs) λ mempool_json. at_file path (
        read_file Reply.admitted
          (λ file. admit_from_file json l.pools transactions file tx_json mempool_json))

  unfoldable pub handle_select_block_txs : String → String → World Db × Result Reply
  handle_select_block_txs path mempool_txs = with_request w (resolve mempool_txs) λ mempool_json.
      at_file path
        (read_file Reply.selected (λ file. select_from_file json l.pools file mempool_json))
