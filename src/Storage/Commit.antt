-- ===== src/Storage/Commit.antt =====
-- src/storage/commit.rs: a finalized block, its transactions, accounts and receipts in one batch.
pub mod Batch
pub mod Chain
pub mod Advance
use Prim.Native.String.{String}
use text.Mathlib.Text.{◌==◌ as str_eq}
use platarium_core.Base.{
  ℕ, zero, suc, ◌+◌, ◌%◌, ◌^◌, Bool, not, Option, none, some, List, [], ◌∷◌, ◌++◌, length, ◌==◌,
  if◌then◌else◌, u64_mod, wrapping_add, Result, ok, err, ◌>>=◌, ◌>>◌, guard, PlatariumError, other,
  invalid_height,
}
use platarium_core.Data.Bytes.{as_bytes}
use platarium_core.Json.{Json}
use platarium_core.Storage.{
  Bytes, WriteBatch, Database, Codecs, BlockCommit, ReceiptRecord, or_error,
}
use platarium_core.Storage.Schema.{
  key_tx, key_block, key_receipt, key_state_root, key_idx_addr, key_idx_block, key_meta_head,
  encode_u64,
}
use platarium_core.Storage.Store.{head_height, write_batch}
use platarium_core.Storage.Snapshot.{account_puts, try_write, create_snapshot_if_due}

abbrev pub receipt_puts : Codecs → List ReceiptRecord → Result WriteBatch
receipt_puts c [] = ok []
receipt_puts c (receipt ∷ receipts) =
    or_error "encode receipt" (c.receipt.to_vec receipt) >>= λ bytes.
    receipt_puts c receipts >>= λ others. ok ((key_receipt receipt.tx_hash, bytes) ∷ others)

abbrev pub block_puts : BlockCommit → Bytes → WriteBatch
block_puts commit block_bytes =
    (key_block commit.block.height, block_bytes)
    ∷ (key_state_root commit.block.height, as_bytes commit.state_root)
    ∷ (key_meta_head, encode_u64 commit.block.height)
    ∷ []

-- `b"1"` at the index of an address
abbrev pub address_put : ℕ → String → Option String → WriteBatch
address_put height hash none = []
address_put height hash (some address) = (key_idx_addr address height hash, b'1' ∷ []) ∷ []

module _ {Value : Type 0} (j : Json Value) where
  abbrev pub text_at : Value → String → Option String
  text_at v name = elim (j.get v name) [ none ↦ none | some x ↦ j.as_str x ]

  abbrev pub address_puts : ℕ → String → String → WriteBatch
  address_puts height hash tx_json = elim (j.from_str tx_json) [
    | none ↦ []
    | some v ↦
        address_put height hash (text_at v "from") ++ address_put height hash (text_at v "to")
  ]

-- The loop over the hashes and the transactions, with what else is put for each: the index by
-- address in `commit_block`, and nothing in `build_commit_batch`. The index is cast to 32 bits.
unfoldable pub tx_puts :
    (String → String → WriteBatch) → ℕ → ℕ → List String → List String → WriteBatch
tx_puts more height i [] tx_jsons = []
tx_puts more height i (hash ∷ hashes) [] = []
tx_puts more height i (hash ∷ hashes) (tx_json ∷ tx_jsons) =
    (key_tx hash, as_bytes tx_json)
    ∷ (key_idx_block height (i % 2 ^ 32), as_bytes hash)
    ∷ (more hash tx_json ++ tx_puts more height (suc i) hashes tx_jsons)

unfoldable pub whole_batch :
    Codecs → (String → String → WriteBatch) → BlockCommit → Result WriteBatch
unfolding tx_puts
whole_batch c more commit = do
  block_bytes ← or_error "encode block" (c.block.to_vec commit.block)
  accounts ← account_puts c commit.accounts
  receipts ← receipt_puts c commit.receipts
  ok (
      block_puts commit block_bytes
      ++ (tx_puts more commit.block.height 0 commit.block.tx_hashes commit.tx_jsons
          ++ (accounts ++ receipts)))

unfoldable pub build_commit_batch : Codecs → BlockCommit → Result WriteBatch
unfolding whole_batch
build_commit_batch c commit = whole_batch c (λ hash tx_json. []) commit

module _ {Db : Type 0} (d : Database Db) where
  -- The guards of `commit_block`
  unfoldable pub check_commit : Db → BlockCommit → Result (Unit {0})
  unfolding head_height
  check_commit db commit = do
    guard (not (length commit.block.tx_hashes == length commit.tx_jsons))
        (other "tx_hashes and tx_jsons length mismatch")
    guard (not (str_eq commit.block.state_root commit.state_root))
        (other "block.state_root != commit.state_root")
    current_head ← head_height d db
    let expected = if current_head == 0 then 1 else wrapping_add u64_mod current_head 1
    guard (not (commit.block.height == expected))
        (invalid_height current_head expected commit.block.height)

-- `?` between two writes
abbrev pub then_write :
    {Db : Type 0} → Db × Result (Unit {0}) → (Db → Db × Result (Unit {0})) → Db × Result (Unit {0})
then_write (db, err e) k = (db, err e)
then_write (db, ok u) k = k db

module _ {Db Value : Type 0} (d : Database Db) (c : Codecs) (j : Json Value) where
  unfoldable pub commit_block : Db → BlockCommit → Db × Result (Unit {0})
  unfolding check_commit whole_batch create_snapshot_if_due write_batch
  commit_block db commit =
      try_write db
        (check_commit d db commit >> whole_batch c (address_puts j commit.block.height) commit)
        λ batch.
          then_write (write_batch d db batch)
            λ db'. create_snapshot_if_due d c db' commit.block.height
