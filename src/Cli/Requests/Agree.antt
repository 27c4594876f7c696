-- ===== src/Cli/Requests/Agree.antt =====
-- src/main.rs with src/core/core_rpc.rs: a command does what the request does.
use mathlib.Core.Path.{subst, fun_ext}
use Prim.Native.String.{String}
use platarium_core.Base.{
  ℕ, ◌^◌, ◌%◌, ◌≡◌, refl, ap, ◌∙◌, sym, Option, none, some, Result, ok, ◌>>=◌, ◌>>◌, inl, inr,
  Result-cases, arith,
}
use platarium_core.Crypto.Signing.{DualSignature, sign_with_both_keys}
use platarium_core.Rpc.{run, dispatch_rpc, validate_tx_method}
use platarium_core.Transaction.Gateway.{require}
use platarium_core.Rpc.Effects.{World, Libraries, Reply, map_ok, answer, on_file, on_store}
use platarium_core.Rpc.Committee.{percent_method, count_method, select_committee_method}
use platarium_core.Rpc.Methods.{method_of}
use platarium_core.Rpc.Params.{param_str, param_opt_str}
use platarium_core.Rpc.Wallet.{
  or_else, both, generate_keys_method, verify_signature_method, sign_message_method,
  sign_transaction_method,
}
use platarium_core.Rpc.Wallet.Signed.{sign_with_both_keys-dual}
use platarium_core.Cli.{Commands, run_command}
use platarium_core.Cli.Files.{
  handle_validate_tx, handle_state_init, handle_state_query, handle_state_validate_tx,
  handle_state_apply_tx, handle_state_credit, handle_state_root, handle_l1_verify_txs,
  handle_assemble_block, handle_mempool_admit, handle_select_block_txs,
}
use platarium_core.Cli.Stores.{
  handle_rocks_get_head, handle_rocks_get_tx, handle_rocks_get_block, handle_rocks_get_account,
  handle_rocks_list_address_txs, handle_rocks_commit_block, handle_rocks_list_snapshots,
  handle_rocks_bootstrap_snapshot, handle_migrate_json_to_rocks,
}
use platarium_core.Cli.Wallet.{
  check_mnemonic, handle_select_committee, handle_generate_keys, handle_sign_message,
  handle_verify_signature, handle_sign_transaction,
}
use platarium_core.Cli.Requests.{method_for, Carries}

module _ {Value Db Mnemonic Node Key Secret Signature : Type 0}
    (l : Libraries Value Db Mnemonic Node Key Secret Signature) (read : String → Result String)
    (params : Value) where
  open l use {json, requests}

  param_str-some :
      (key s : String)
      → param_opt_str json requests params key ≡ some s
      → param_str json requests params key ≡ ok s
  unfolding param_str
  param_str-some key s given = rw (param_str, given) refl

  sign_transaction-same :
      (from to asset : String) (amount fee nonce : ℕ) (reads writes mnemonic part : String)
      → Carries l read params
          (Commands.sign_transaction from to asset amount fee nonce reads writes mnemonic part)
      → handle_sign_transaction l from to asset amount fee nonce reads writes mnemonic part
        ≡ sign_transaction_method json requests l.keys params l.secp l.transactions
  unfolding sign_transaction_method handle_sign_transaction
  sign_transaction-same from to asset amount fee nonce reads writes mnemonic part
        (h, i, given, o, q, u, v, x, y, z) =
      ap (λ a. handle_sign_transaction l from to a amount fee nonce reads writes mnemonic part)
        (sym (ap (λ a. or_else a "PLP") given))
      ∙ rw (sign_transaction_method, h, i, o, q, u, v, x, y, z) refl

  -- There are two signatures to print.
  both-signed :
      (value : Value) (mnemonic part : String)
      → (sign_with_both_keys l.messages l.secp value mnemonic part >>= λ signed.
          both signed.signatures >>= λ pair. ok signed)
        ≡ sign_with_both_keys l.messages l.secp value mnemonic part
  both-signed value mnemonic part =
      elim (Result-cases (sign_with_both_keys l.messages l.secp value mnemonic part)) [
        | inr (e, failed) ↦ rw failed refl
        | inl (signed, made) ↦
            let (main, derived, dual) =
              sign_with_both_keys-dual l.messages l.secp value mnemonic part signed made in
            rw made
              (subst (λ (s : DualSignature). (both s.signatures >>= λ pair. ok s) ≡ ok s) dual refl)
      ]

  sign_message-same :
      (message mnemonic part : String)
      → Carries l read params (Commands.sign_message message mnemonic part)
      → handle_sign_message l read message mnemonic part
        ≡ sign_message_method json requests l.keys params l.secp l.messages
  unfolding sign_message_method handle_sign_message
  sign_message-same message mnemonic part ((s, resolved, h), i, k) =
      rw (sign_message_method, resolved, h, i, k)
        (ap
          (λ f.
            check_mnemonic l mnemonic >> (require "Invalid JSON message" (json.from_str s) >>= f))
          (fun_ext λ value. both-signed value mnemonic part))

  module _ (w : World Db) where
    abbrev SameAs : Commands → Type 0
    SameAs c = run_command l read w c ≡ run l w params (method_for c)

    validate_tx-same :
        (tx : String) (path : Option String)
        → Carries l read params (Commands.validate_tx tx path)
        → SameAs (Commands.validate_tx tx path)
    unfolding run_command run validate_tx_method on_file handle_validate_tx
    validate_tx-same tx none ((s, resolved, there), absent) =
        rw (validate_tx_method, resolved, there, absent) refl
    validate_tx-same tx (some path) ((s, resolved, there), given) =
        rw (validate_tx_method, resolved, there, given, param_str-some "state_file" path given) refl

    run_command-run : (c : Commands) → Carries l read params c → SameAs c
    unfolding run_command run on_file on_store percent_method count_method select_committee_method
        generate_keys_method verify_signature_method sign_message_method sign_transaction_method
        handle_state_init handle_state_query handle_state_validate_tx handle_state_apply_tx
        handle_state_credit handle_state_root handle_l1_verify_txs handle_assemble_block
        handle_mempool_admit handle_select_block_txs handle_rocks_get_head handle_rocks_get_tx
        handle_rocks_get_block handle_rocks_get_account handle_rocks_list_address_txs
        handle_rocks_commit_block handle_rocks_list_snapshots handle_rocks_bootstrap_snapshot
        handle_migrate_json_to_rocks handle_select_committee handle_generate_keys
        handle_sign_message handle_verify_signature handle_sign_transaction
    run_command-run (Commands.selection_percent_from_load load_pct) h = rw h refl
    run_command-run (Commands.committee_count candidates load_pct) (h, i) = rw (h, i) refl
    run_command-run (Commands.select_committee candidates seed_hex n) ((s, resolved, h), i, k) =
        rw (resolved, h, i, k) refl
    run_command-run Commands.generate_mnemonic h = refl
    run_command-run (Commands.generate_keys mnemonic part seed_index path) (h, i, k, o, small) =
        let same : seed_index % 2 ^ 32 ≡ seed_index = omega (arith, small) in
        rw (h, i, k, o, same) refl
    run_command-run (Commands.sign_message message mnemonic part) h =
        ap (λ r. answer w (map_ok Reply.signed r)) (sign_message-same message mnemonic part h)
    run_command-run (Commands.verify_signature message signature pubkey) (h, i, k) =
        rw (h, i, k) refl
    run_command-run (Commands.validate_tx tx path) h = validate_tx-same tx path h
    run_command-run (Commands.state_init path) h = rw h refl
    run_command-run (Commands.state_query path address asset) (h, i, k) = rw (h, i, k) refl
    run_command-run (Commands.state_validate_tx path tx) (h, (s, resolved, i)) =
        rw (h, resolved, i) refl
    run_command-run (Commands.state_apply_tx path tx) (h, (s, resolved, i)) =
        rw (h, resolved, i) refl
    run_command-run (Commands.state_credit path address plp uplp testnet) (h, i, k, o, q) =
        rw (h, i, k, o, q) refl
    run_command-run (Commands.state_root path) h = rw h refl
    run_command-run (Commands.l1_verify_txs path txs) (h, (s, resolved, i)) =
        rw (h, resolved, i) refl
    run_command-run (Commands.l1_process_votes votes) (s, resolved, h) = rw (resolved, h) refl
    run_command-run (Commands.l2_process_votes votes) (s, resolved, h) = rw (resolved, h) refl
    run_command-run (Commands.assemble_block path n previous time hashes producer)
          (h, i, k, o, (s, resolved, q), u) =
        rw (h, i, k, o, resolved, q, u) refl
    run_command-run (Commands.min_fee_from_load pending) h = rw h refl
    run_command-run (Commands.mempool_admit path tx txs) (h, (s, resolved, i), (s', resolved', k)) =
        rw (h, resolved, i, resolved', k) refl
    run_command-run (Commands.block_proposal_status txs now) ((s, resolved, h), i) =
        rw (resolved, h, i) refl
    run_command-run (Commands.select_block_txs path txs) (h, (s, resolved, i)) =
        rw (h, resolved, i) refl
    run_command-run (Commands.rocks_get_head path) h = rw h refl
    run_command-run (Commands.rocks_get_tx path tx_hash) (h, i) = rw (h, i) refl
    run_command-run (Commands.rocks_get_block path height) (h, i) = rw (h, i) refl
    run_command-run (Commands.rocks_get_account path address) (h, i) = rw (h, i) refl
    run_command-run (Commands.rocks_list_address_txs path address) (h, i) = rw (h, i) refl
    run_command-run (Commands.rocks_commit_block path commit) (h, i) = rw (h, i) refl
    run_command-run (Commands.rocks_list_snapshots path) h = rw h refl
    run_command-run (Commands.rocks_bootstrap_snapshot path snapshot) (h, i) = rw (h, i) refl
    run_command-run (Commands.migrate_json_to_rocks path chain accounts)
          (h, (s, found, i), (s', found', k)) =
        rw (h, found, i, found', k) refl
    run_command-run
          (Commands.sign_transaction from to asset amount fee nonce reads writes mnemonic part) h =
        ap (λ r. answer w (map_ok Reply.signed_transaction r))
          (sign_transaction-same from to asset amount fee nonce reads writes mnemonic part h)

    -- A command of the command line does what a request of its name does, if the parameters carry the
    -- command's arguments: the same change of the state files and the databases, and the same answer
    -- or error. An argument that names a file carries what is in the file.
    pub run_command-eq-dispatch_rpc :
        (c : Commands) (name : String)
        → method_of name ≡ some (method_for c)
        → Carries l read params c
        → run_command l read w c ≡ dispatch_rpc l w params name
    unfolding dispatch_rpc
    run_command-eq-dispatch_rpc c name named carried =
        rw (dispatch_rpc, named) (run_command-run c carried)
