-- ===== src/Storage/Answers.antt =====
-- src/storage/rpc.rs and `RocksStore::open` of src/storage/rocks.rs: a store is opened for each
-- request. The answers are values; printing them as JSON is left out.
use Prim.Native.String.{String}
use platarium_core.Base.{ℕ, Option, none, some, List, [], map, length, Result, ok, err, ◌>>=◌}
use platarium_core.Json.{Json}
use platarium_core.Storage.{
  Database, Codecs, BlockCommit, BlockRecordStored, AccountRecord, ReceiptRecord, SnapshotMeta,
  or_error,
}
use platarium_core.Storage.Store.{ensure_schema}
use platarium_core.Storage.Commit.{commit_block}
use platarium_core.Storage.Snapshot.{list_snapshots, bootstrap_from_snapshot}
use platarium_core.Storage.Query.{
  get_head, get_tx, get_block, get_account, get_receipt, get_snapshot, get_state_root,
  list_tx_hashes_for_address,
}
use platarium_core.Storage.Import.{
  ImportDecoder, migrate_json_to_rocks, array_at, txs_by_hash, commits_of,
}

-- What is listed of a snapshot: its height, its state root and the number of its accounts.
pub record ThinSnapshot : Type 0 where
  pub height : ℕ
  pub state_root : String
  pub account_count : ℕ

abbrev pub thin : SnapshotMeta → ThinSnapshot
thin s = record { height = s.height; state_root = s.state_root; account_count = s.account_count }

-- `?` after a call that may write, and after one that only reads
abbrev pub and_then {ℓ} :
    {Db : Type 0} {A : Type ℓ} → Db × Result (Unit {0}) → (Db → Db × Result A) → Db × Result A
and_then (db, err e) k = (db, err e)
and_then (db, ok u) k = k db

abbrev pub reading {ℓ} : {Db : Type 0} {A : Type ℓ} → (Db → Result A) → Db → Db × Result A
reading query db = (db, query db)

abbrev pub decoding {ℓ κ} :
    {Db : Type 0} {A : Type ℓ} {B : Type κ}
    → Result A
    → (A → Db → Db × Result B)
    → Db
    → Db × Result B
decoding (err e) k db = (db, err e)
decoding (ok a) k db = k a db

-- `opened` is what the creation of the directory and `DB::open` return.
module _ {Db : Type 0} (d : Database Db) (opened : Result (Unit {0})) where
  unfoldable pub with_store {ℓ} : {A : Type ℓ} → Db → (Db → Db × Result A) → Db × Result A
  unfolding ensure_schema
  with_store db k = and_then (db, opened) λ db1. and_then (ensure_schema d db1) k

module _ {Db : Type 0} (d : Database Db) (c : Codecs) (opened : Result (Unit {0})) where
  -- `head_meta_json` reads the head as `get_head` does.
  unfoldable pub rocks_get_head : Db → Db × Result ℕ
  unfolding with_store get_head
  rocks_get_head db = with_store d opened db (reading (get_head d c))

  unfoldable pub rocks_get_tx : String → Db → Db × Result (Option String)
  unfolding with_store get_tx
  rocks_get_tx tx_hash db = with_store d opened db (reading (λ s. get_tx d c s tx_hash))

  unfoldable pub rocks_get_block : ℕ → Db → Db × Result (Option BlockRecordStored)
  unfolding with_store get_block
  rocks_get_block height db = with_store d opened db (reading (λ s. get_block d c s height))

  unfoldable pub rocks_get_account : String → Db → Db × Result (Option AccountRecord)
  unfolding with_store get_account
  rocks_get_account address db = with_store d opened db (reading (λ s. get_account d c s address))

  unfoldable pub rocks_get_receipt : String → Db → Db × Result (Option ReceiptRecord)
  unfolding with_store get_receipt
  rocks_get_receipt tx_hash db = with_store d opened db (reading (λ s. get_receipt d c s tx_hash))

  unfoldable pub rocks_list_address_txs : String → Db → Db × Result (List String)
  unfolding with_store list_tx_hashes_for_address
  rocks_list_address_txs address db =
      with_store d opened db (reading (λ s. list_tx_hashes_for_address d c s address))

  unfoldable pub rocks_list_snapshots : Db → Db × Result (List ThinSnapshot)
  unfolding with_store list_snapshots
  rocks_list_snapshots db =
      with_store d opened db (reading (λ s. list_snapshots d c s >>= λ snaps. ok (map thin snaps)))

  unfoldable pub rocks_get_snapshot : ℕ → Db → Db × Result (Option SnapshotMeta)
  unfolding with_store get_snapshot
  rocks_get_snapshot height db = with_store d opened db (reading (λ s. get_snapshot d c s height))

  unfoldable pub rocks_get_state_root : ℕ → Db → Db × Result (Option String)
  unfolding with_store get_state_root
  rocks_get_state_root height db =
      with_store d opened db (reading (λ s. get_state_root d c s height))

  -- The decoded snapshot, and the head that is read back
  unfoldable pub rocks_bootstrap_snapshot : Option SnapshotMeta → Db → Db × Result ℕ
  unfolding with_store bootstrap_from_snapshot get_head
  rocks_bootstrap_snapshot snapshot db = with_store d opened db (
      decoding (or_error "invalid snapshot JSON" snapshot)
        λ meta s. and_then (bootstrap_from_snapshot d c s meta) (reading (get_head d c)))

  module _ {Value : Type 0} (j : Json Value) where
    -- The decoded commit; the answer has its height.
    unfoldable pub rocks_commit_block : Option BlockCommit → Db → Db × Result ℕ
    unfolding with_store commit_block
    rocks_commit_block commit db = with_store d opened db (
        decoding (or_error "invalid BlockCommit JSON" commit)
          λ m s. and_then (commit_block d c j s m) (reading (λ _. ok m.block.height)))

    -- The number of blocks, where each was imported
    abbrev pub imported : ImportDecoder Value → String → ℕ
    imported i chain_json = elim (j.from_str chain_json) [
      | none ↦ 0
      | some chain ↦ length (
          commits_of j i (txs_by_hash j i [] (array_at j i chain "transactions"))
            (array_at j i chain "blocks"))
    ]

    -- `migrate_json_to_rocks`, with the number of blocks and the head that is read back
    unfoldable pub rocks_migrate :
        ImportDecoder Value → String → Option String → Db → Db × Result (ℕ × ℕ)
    unfolding with_store migrate_json_to_rocks get_head
    rocks_migrate i chain_json accounts db = with_store d opened db (λ s.
        and_then (migrate_json_to_rocks d c j i s chain_json accounts)
          (reading (λ s'. get_head d c s' >>= λ head. ok (imported i chain_json, head))))
