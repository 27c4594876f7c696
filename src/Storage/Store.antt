-- ===== src/Storage/Store.antt =====
-- src/storage/rocks.rs and src/storage/migrations.rs: reads and writes of the database, the height
-- of the head, and the schema's version. Opening a path is left to rocksdb.
pub mod Reopen
use platarium_core.Base.{
  ℕ, zero, suc, Option, none, some, [], ◌∷◌, length, ltb, ◌==◌, ◌||◌, if◌then◌else◌, Result, ok,
  err, ◌>>=◌, other, unsupported_version,
}
use platarium_core.Data.BigEndian.{to_be_bytes, from_be_bytes}
use platarium_core.Storage.{Bytes, WriteBatch, Database}
use platarium_core.Storage.Schema.{decode_u64, key_meta_head, key_meta_schema, schema_version}

abbrev pub take_bytes : ℕ → Bytes → Bytes
take_bytes zero bs = []
take_bytes (suc n) [] = []
take_bytes (suc n) (b ∷ bs) = b ∷ take_bytes n bs

abbrev pub unwrap_or_zero : Option ℕ → ℕ
unwrap_or_zero none = 0
unwrap_or_zero (some n) = n

abbrev pub height_of : Option Bytes → ℕ
height_of none = 0
height_of (some bytes) = unwrap_or_zero (decode_u64 bytes)

module _ {Db : Type 0} (d : Database Db) where
  -- `get`, `put`, `write_batch`
  unfoldable pub get : Db → Bytes → Result (Option Bytes)
  get db key = d.get db key

  unfoldable pub put : Db → Bytes → Bytes → Db × Result (Unit {0})
  put db key value = d.put db key value

  unfoldable pub write_batch : Db → WriteBatch → Db × Result (Unit {0})
  write_batch db batch = d.write db batch

  unfoldable pub head_height : Db → Result ℕ
  unfolding get
  head_height db = get db key_meta_head >>= λ found. ok (height_of found)

  unfoldable pub migrate : Db → ℕ → ℕ → Db × Result (Unit {0})
  migrate db from to =
      if from == 0 || from == to
      then d.put db key_meta_schema (to_be_bytes 4 to)
      else (db, err (unsupported_version from))

  abbrev pub check_version : Db → ℕ → Db × Result (Unit {0})
  check_version db ver =
      if ltb schema_version ver
      then (db, err (unsupported_version ver))
      else if ltb ver schema_version
      then migrate db ver schema_version
      else (db, ok tt)

  unfoldable pub ensure_schema : Db → Db × Result (Unit {0})
  unfolding migrate
  ensure_schema db = elim (d.get db key_meta_schema) [
    | err e ↦ (db, err e)
    | ok none ↦ d.put db key_meta_schema (to_be_bytes 4 schema_version)
    | ok (some bytes) ↦
        if ltb (length bytes) 4
        then (db, err (other "invalid schema version bytes"))
        else check_version db (from_be_bytes 0 (take_bytes 4 bytes))
  ]
