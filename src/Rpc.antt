-- ===== src/Rpc.antt =====
-- src/core/core_rpc.rs: the methods of a request, the lines of a connection.
pub mod Params
pub mod Wallet
pub mod Effects
pub mod Committee
pub mod Methods
pub mod Serve
pub mod Isolation
use Prim.Native.String.{String}
use platarium_core.Base.{
  ℕ, ◌-◌, Bool, true, false, Option, none, some, List, [], ◌∷◌, is_empty, if◌then◌else◌, u64_mod,
  Result, ok, err, ◌>>=◌, ◌>>◌, PlatariumError, other,
}
use platarium_core.Data.Int.{ℤ, pos, negsuc}
use platarium_core.Data.Ord.{◌==◌, string_eq}
use platarium_core.Data.Parse.{codes, trim}
use platarium_core.Consensus
use platarium_core.Consensus.{admit_from_file, status_from_json, select_from_file}
use platarium_core.Crypto.Signing.{DualSignature}
use platarium_core.Fee.{calculate_fee_from_load}
use platarium_core.Keys
use platarium_core.StateFile
use platarium_core.StateFile.{StateFileData, load_state_file, init_state_file}
use platarium_core.Storage.Answers
use platarium_core.Transaction.{validate_basic}
use platarium_core.Transaction.Gateway.{from_gateway_json, require}
use platarium_core.Rpc.Params.{
  and_then, param_str, param_opt_str, param_u64, param_usize, param_i64, param_bool,
}
use platarium_core.Rpc.Effects.{
  World, Libraries, Reply, FileAction, reply_with, map_ok, answer, on_file, on_store,
}
use platarium_core.Rpc.Wallet.{
  or_else, generate_keys_method, verify_signature_method, sign_message_method,
  sign_transaction_method,
}
use platarium_core.Rpc.Committee.{percent_method, count_method, select_committee_method}
use platarium_core.Rpc.Methods.{Method, method_of}

-- The bits of an `i64`
abbrev pub bits : ℤ → ℕ
bits (pos n) = n
bits (negsuc n) = u64_mod - 1 - n

-- An action that only reads the file
abbrev pub read_file {ℓ} :
    {A : Type ℓ} → (A → Reply) → (Option StateFileData → Result A) → FileAction
read_file f query file = (none, map_ok f (query file))

abbrev pub pair_reply {ℓ κ} : {A : Type ℓ} {B : Type κ} → (A → B → Reply) → A × B → Reply
pair_reply f (a, b) = f a b

-- `validate_tx` without a state file: an error is part of the answer.
abbrev pub verdict : Result (Unit {0}) → Result Reply
verdict r = ok (Reply.validity r)

module _ {Value Db Mnemonic Node Key Secret Signature : Type 0}
    (l : Libraries Value Db Mnemonic Node Key Secret Signature) (w : World Db)
    (params : Value) where
  open l use {json, requests, transactions, hasher, paths}

  abbrev hash_hex : List ℕ → String
  hash_hex bytes = hasher.hex_encode (hasher.sha256 bytes)

  -- The pack is read after the state, from its text.
  abbrev l1_verify : String → Option StateFileData → Result Consensus.Verification
  l1_verify txs file = load_state_file file >>= λ s.
      require "invalid txs JSON array" (requests.texts_from_str txs) >>= λ pack.
      Consensus.l1_verify_txs json transactions file pack

  abbrev text : String → Result String
  text = param_str json requests params

  abbrev number : String → Result ℕ
  number = param_u64 json requests params

  -- `state_file` is there in the first case.
  unfoldable pub validate_tx_method : World Db × Result Reply
  unfolding param_str on_file from_gateway_json validate_basic
  validate_tx_method = elim (text "tx") [
    | err e ↦ (w, err e)
    | ok tx ↦ elim (param_opt_str json requests params "state_file") [
      | some path ↦ on_file json requests paths w params λ path.
          ok (
            read_file Reply.validity
              (λ file. StateFile.state_validate_tx json transactions file tx))
      | none ↦ answer w (verdict (from_gateway_json json tx >>= λ t. validate_basic transactions t))
    ]
  ]

  -- `dispatch_rpc`, for the methods
  unfoldable pub run : Method → World Db × Result Reply
  unfolding param_str param_u64 param_i64 on_file on_store validate_tx_method
  run Method.ping = answer w (ok Reply.pong)
  run Method.state_init =
      on_file json requests paths w params
        λ path. ok (λ file. (some init_state_file, ok (Reply.initialized path)))
  run Method.state_query = on_file json requests paths w params λ path. do
    address ← text "address"
    let asset = or_else (param_opt_str json requests params "asset") "PLP"
    ok (read_file (Reply.queried address) (λ file. StateFile.state_query file address asset))
  run Method.state_validate_tx = on_file json requests paths w params λ path. do
    tx ← text "tx"
    ok (read_file Reply.validity (λ file. StateFile.state_validate_tx json transactions file tx))
  run Method.state_apply_tx = on_file json requests paths w params λ path. do
    tx ← text "tx"
    ok (λ file.
        reply_with (pair_reply Reply.applied)
          (StateFile.state_apply_tx json transactions hash_hex file tx))
  run Method.state_credit = on_file json requests paths w params λ path. do
    address ← text "address"
    plp ← number "plp"
    uplp ← number "uplp"
    let testnet = param_bool json requests params "testnet"
    ok (λ file.
        reply_with Reply.credited (StateFile.state_credit hash_hex file address plp uplp testnet))
  run Method.state_root =
      on_file json requests paths w params
        λ path. ok (read_file Reply.rooted (StateFile.state_root hash_hex))
  run Method.validate_tx = validate_tx_method
  run Method.l1_verify_txs =
      on_file json requests paths w params
        λ path. do txs ← text "txs"; ok (read_file Reply.verification (l1_verify txs))
  run Method.l1_process_votes = answer w (
      text "votes" >>= λ votes.
      map_ok Reply.l1_outcome (Consensus.l1_process_votes json l.votes votes))
  run Method.l2_process_votes = answer w (
      text "votes" >>= λ votes.
      map_ok Reply.l2_outcome (Consensus.l2_process_votes json l.votes votes))
  run Method.assemble_block = on_file json requests paths w params λ path. do
    block_number ← number "block_number"
    previous_hash ← text "previous_hash"
    timestamp ← param_i64 json requests params "timestamp"
    tx_hashes ← text "tx_hashes"
    producer_id ← text "producer_id"
    ok (
        read_file Reply.assembled (λ file. load_state_file file >>= λ s.
        require "invalid tx_hashes JSON" (requests.texts_from_str tx_hashes) >>= λ hashes.
        Consensus.assemble_from_file hasher file block_number previous_hash (bits timestamp) hashes
          producer_id))
  run Method.min_fee_from_load = answer w (
      param_usize json requests params "pending_count" >>= λ pending.
      ok (Reply.min_fee (calculate_fee_from_load pending)))
  run Method.mempool_admit = on_file json requests paths w params λ path. do
    tx ← text "tx"
    mempool_txs ← text "mempool_txs"
    ok (
        read_file Reply.admitted
          (λ file. admit_from_file json l.pools transactions file tx mempool_txs))
  run Method.block_proposal_status = answer w (
      text "mempool_txs" >>= λ mempool_txs. param_i64 json requests params "now_unix" >>= λ now.
      map_ok Reply.proposal (status_from_json json l.pools mempool_txs now))
  run Method.select_block_txs = on_file json requests paths w params λ path. do
    mempool_txs ← text "mempool_txs"
    ok (read_file Reply.selected (λ file. select_from_file json l.pools file mempool_txs))
  run Method.rocks_get_head = on_store json requests paths w params λ path.
      ok (λ db.
        reply_with Reply.head (Answers.rocks_get_head l.database l.codecs (l.opened path) db))
  run Method.rocks_get_tx = on_store json requests paths w params λ path. do
    tx_hash ← text "tx_hash"
    ok (λ db.
        reply_with Reply.tx (Answers.rocks_get_tx l.database l.codecs (l.opened path) tx_hash db))
  run Method.rocks_get_block = on_store json requests paths w params λ path. do
    height ← number "height"
    ok (λ db.
        reply_with Reply.block
          (Answers.rocks_get_block l.database l.codecs (l.opened path) height db))
  run Method.rocks_get_account = on_store json requests paths w params λ path. do
    address ← text "address"
    ok (λ db.
        reply_with Reply.account
          (Answers.rocks_get_account l.database l.codecs (l.opened path) address db))
  run Method.rocks_list_address_txs = on_store json requests paths w params λ path. do
    address ← text "address"
    ok (λ db.
        reply_with (Reply.address_txs address)
          (Answers.rocks_list_address_txs l.database l.codecs (l.opened path) address db))
  run Method.rocks_commit_block = on_store json requests paths w params λ path. do
    commit ← text "commit"
    ok (λ db. reply_with Reply.committed (
        Answers.rocks_commit_block l.database l.codecs (l.opened path) json
          (requests.commit_from_str commit) db))
  run Method.rocks_list_snapshots = on_store json requests paths w params λ path. ok (λ db.
      reply_with Reply.snapshots
        (Answers.rocks_list_snapshots l.database l.codecs (l.opened path) db))
  run Method.rocks_bootstrap_snapshot = on_store json requests paths w params λ path. do
    snapshot ← text "snapshot"
    ok (λ db. reply_with Reply.bootstrapped (
        Answers.rocks_bootstrap_snapshot l.database l.codecs (l.opened path)
          (requests.snapshot_from_str snapshot) db))
  run Method.migrate_json_to_rocks = on_store json requests paths w params λ path. do
    chain ← text "chain_json"
    let accounts = param_opt_str json requests params "accounts_json"
    ok (λ db. reply_with (pair_reply Reply.migrated) (
        Answers.rocks_migrate l.database l.codecs (l.opened path) json l.imports chain accounts db))
  run Method.selection_percent_from_load =
      answer w (map_ok Reply.percent (percent_method json requests params))
  run Method.committee_count = answer w (map_ok Reply.count (count_method json requests params))
  run Method.select_committee =
      answer w (map_ok Reply.committee (select_committee_method json requests params hasher))
  run Method.generate_mnemonic =
      answer w (map_ok (pair_reply Reply.mnemonic) (Keys.generate_mnemonic l.keys l.random))
  run Method.generate_keys =
      answer w (map_ok Reply.generated (generate_keys_method json requests l.keys params l.random))
  run Method.verify_signature =
      answer w
        (map_ok Reply.verified (verify_signature_method json requests l.keys params l.messages))
  run Method.sign_message =
      answer w
        (map_ok Reply.signed (sign_message_method json requests l.keys params l.secp l.messages))
  run Method.sign_transaction = answer w (
      map_ok Reply.signed_transaction
        (sign_transaction_method json requests l.keys params l.secp transactions))

  unfoldable pub dispatch_rpc : String → World Db × Result Reply
  unfolding method_of run
  dispatch_rpc name = elim (method_of name) [
    | some m ↦ run m
    | none ↦ (w, err (other "unknown method"))
  ]
