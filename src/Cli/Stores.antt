-- ===== src/Cli/Stores.antt =====
-- src/main.rs: the commands on a database.
use Prim.Native.String.{String}
use platarium_core.Base.{ℕ, Option, Result}
use platarium_core.Rpc.{pair_reply}
use platarium_core.Rpc.Effects.{World, Libraries, Reply, reply_with, keep_store, with_request}
use platarium_core.Storage.Answers
use platarium_core.Cli.Arguments.{read_optional}

module _ {Value Db Mnemonic Node Key Secret Signature : Type 0}
    (l : Libraries Value Db Mnemonic Node Key Secret Signature) where
  open l use {json, requests, database, codecs, opened}

  module _ (w : World Db) (path : String) where
    abbrev pub at_store : (Db → Db × Result Reply) → World Db × Result Reply
    at_store act = keep_store w path (act (w.stores path))

    unfoldable pub handle_rocks_get_head : World Db × Result Reply
    handle_rocks_get_head =
        at_store
          λ db. reply_with Reply.head (Answers.rocks_get_head database codecs (opened path) db)

    unfoldable pub handle_rocks_get_tx : String → World Db × Result Reply
    handle_rocks_get_tx tx_hash =
        at_store
          λ db. reply_with Reply.tx (Answers.rocks_get_tx database codecs (opened path) tx_hash db)

    unfoldable pub handle_rocks_get_block : ℕ → World Db × Result Reply
    handle_rocks_get_block height = at_store λ db.
        reply_with Reply.block (Answers.rocks_get_block database codecs (opened path) height db)

    unfoldable pub handle_rocks_get_account : String → World Db × Result Reply
    handle_rocks_get_account address = at_store λ db.
        reply_with Reply.account
          (Answers.rocks_get_account database codecs (opened path) address db)

    unfoldable pub handle_rocks_list_address_txs : String → World Db × Result Reply
    handle_rocks_list_address_txs address = at_store λ db.
        reply_with (Reply.address_txs address)
          (Answers.rocks_list_address_txs database codecs (opened path) address db)

    unfoldable pub handle_rocks_commit_block : String → World Db × Result Reply
    handle_rocks_commit_block commit = at_store λ db. reply_with Reply.committed (
        Answers.rocks_commit_block database codecs (opened path) json
          (requests.commit_from_str commit) db)

    unfoldable pub handle_rocks_list_snapshots : World Db × Result Reply
    handle_rocks_list_snapshots = at_store λ db.
        reply_with Reply.snapshots (Answers.rocks_list_snapshots database codecs (opened path) db)

    unfoldable pub handle_rocks_bootstrap_snapshot : String → World Db × Result Reply
    handle_rocks_bootstrap_snapshot snapshot = at_store λ db. reply_with Reply.bootstrapped (
        Answers.rocks_bootstrap_snapshot database codecs (opened path)
          (requests.snapshot_from_str snapshot) db)

  module _ (read : String → Result String) (w : World Db) (path : String) where
    -- The chain and the accounts are read from files of their own.
    unfoldable pub handle_migrate_json_to_rocks : String → Option String → World Db × Result Reply
    handle_migrate_json_to_rocks chain_file accounts_file =
        with_request w (read chain_file) λ chain.
          with_request w (read_optional read accounts_file) λ accounts. at_store w path λ db.
            reply_with (pair_reply Reply.migrated)
              (Answers.rocks_migrate database codecs (opened path) json l.imports chain accounts db)
