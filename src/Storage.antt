-- ===== src/Storage.antt =====
-- src/storage: the records kept in RocksDB, and the interfaces of rocksdb and serde_json.
pub mod Schema
pub mod Store
pub mod Snapshot
pub mod Commit
pub mod Query
pub mod Import
pub mod Answers
use Prim.Native.String.{String}
use platarium_core.Base.{
  ℕ, ◌≡◌, ◌≢◌, Bool, true, false, Option, none, some, List, [], ◌∷◌, if◌then◌else◌, Result, ok, err,
  PlatariumError, other,
}
use platarium_core.Data.Ord.{◌==◌}
use platarium_core.Data.BigEndian.{bytes_eq}
use platarium_core.Data.Bytes.{as_bytes}
use platarium_core.Data.Int.{ℤ}

abbrev pub Bytes : Type 0
Bytes = List ℕ

-- `WriteBatch`: the puts, in order.
abbrev pub WriteBatch : Type 0
WriteBatch = List (Bytes × Bytes)

-- A decimal text is the list of its bytes, as in StateFile.
pub record AccountRecord : Type 0 where
  pub address : String
  pub balance : Bytes
  pub uplp_balance : Bytes
  pub nonce : ℕ

pub record ReceiptRecord : Type 0 where
  pub tx_hash : String
  pub status : String
  pub fee_uplp : ℕ
  pub block_height : ℕ

pub record BlockRecordStored : Type 0 where
  pub height : ℕ
  pub previous_hash : String
  pub timestamp : ℤ
  pub tx_hashes : List String
  pub merkle_root : String
  pub state_root : String
  pub block_hash : String
  pub producer_id : String

pub record BlockCommit : Type 0 where
  pub block : BlockRecordStored
  pub tx_jsons : List String
  pub accounts : List AccountRecord
  pub receipts : List ReceiptRecord
  pub state_root : String

pub record SnapshotMeta : Type 0 where
  pub height : ℕ
  pub state_root : String
  pub account_count : ℕ
  pub accounts : List AccountRecord

-- The operations of `rocksdb::DB` that the program calls.
pub record Database (Db : Type 0) : Type 0 where
  pub get : Db → Bytes → Result (Option Bytes)
  pub put : Db → Bytes → Bytes → Db × Result (Unit {0})
  pub write : Db → WriteBatch → Db × Result (Unit {0})
  pub prefix_iterator : Db → Bytes → List (Result (Bytes × Bytes))

-- `serde_json::to_vec` and `from_slice` of one type
pub record Codec (A : Type 0) : Type 0 where
  pub to_vec : A → Option Bytes
  pub from_slice : Bytes → Option A

pub record Codecs : Type 0 where
  pub block : Codec BlockRecordStored
  pub account : Codec AccountRecord
  pub receipt : Codec ReceiptRecord
  pub snapshot : Codec SnapshotMeta
  pub from_utf8_lossy : Bytes → String

-- `map_err` of a decoding or an encoding
abbrev pub or_error {ℓ} : {A : Type ℓ} → String → Option A → Result A
or_error message none = err (other message)
or_error message (some a) = ok a

-- The value that a batch leaves at a key: that of the last put.
unfoldable pub last_put : WriteBatch → Bytes → Option Bytes
last_put [] k = none
last_put ((j, v) ∷ batch) k = elim (last_put batch k) [
  | some w ↦ some w
  | none ↦ if j == k then some v else none
]

abbrev pub overwrite : Option Bytes → Result (Option Bytes) → Result (Option Bytes)
overwrite none before = before
overwrite (some v) before = ok (some v)

-- What RocksDB documents: a batch is written as a whole or not at all, and what is read after it is
-- the last value put, or what was there before.
pub record IsAtomic {Db : Type 0} (d : Database Db) : Type 0 where
  pub write-ok :
      (db : Db) (batch : WriteBatch)
      → (d.write db batch).1 ≡ ok tt
      → (k : Bytes) → d.get (d.write db batch).0 k ≡ overwrite (last_put batch k) (d.get db k)
  pub write-err :
      (db : Db) (batch : WriteBatch) → (d.write db batch).1 ≢ ok tt → (d.write db batch).0 ≡ db

-- What serde_json and UTF-8 document, for the texts of one block: decoding what was encoded gives
-- it back.
pub record IsFaithful (c : Codecs) (commit : BlockCommit) : Type 0 where
  pub block_roundtrip :
      (bytes : Bytes)
      → c.block.to_vec commit.block ≡ some bytes
      → c.block.from_slice bytes ≡ some commit.block
  pub text_roundtrip : c.from_utf8_lossy (as_bytes commit.state_root) ≡ commit.state_root
