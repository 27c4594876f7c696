-- ===== src/Storage/Snapshot.antt =====
-- src/storage/snapshot.rs: a dump of the accounts every 10 000 blocks.
use Prim.Native.String.{String}
use platarium_core.Base.{
  ℕ, ◌%◌, ◌||◌, not, Option, none, some, List, [], ◌∷◌, ◌++◌, length, ◌==◌, if◌then◌else◌, Result,
  ok, err, ◌>>=◌,
}
use platarium_core.Data.Ord.{string_ord, nat_ord}
use platarium_core.Data.Sort.{sort_by}
use platarium_core.Data.Parse.{starts_with}
use platarium_core.Data.Bytes.{as_bytes}
use platarium_core.Storage.{
  Bytes, WriteBatch, Database, Codec, Codecs, AccountRecord, SnapshotMeta, or_error,
}
use platarium_core.Storage.Schema.{
  prefix_account, prefix_snapshot, key_account, key_snapshot, key_state_root, key_meta_head,
  encode_u64,
}
use platarium_core.Storage.Store.{get, write_batch}

abbrev pub snapshot_interval : ℕ
snapshot_interval = 10_000

-- The loop over an iterator: it ends at the first key without the prefix, and at the first error.
abbrev pub decode_prefix :
    {A : Type 0} → Codec A → String → Bytes → List (Result (Bytes × Bytes)) → Result (List A)
decode_prefix codec message prefix [] = ok []
decode_prefix codec message prefix (err e ∷ items) = err e
decode_prefix codec message prefix (ok (key, value) ∷ items) =
    let rest = decode_prefix codec message prefix items in
    if starts_with key prefix
    then or_error message (codec.from_slice value) >>= (λ a. rest >>= λ others. ok (a ∷ others))
    else ok []

-- The puts of accounts, in the batches of a block and of a snapshot
abbrev pub account_puts : Codecs → List AccountRecord → Result WriteBatch
account_puts c [] = ok []
account_puts c (acct ∷ accts) = or_error "encode account" (c.account.to_vec acct) >>= λ bytes.
    account_puts c accts >>= λ others. ok ((key_account acct.address, bytes) ∷ others)

-- The effect of a result on the store: an error before a write leaves it.
abbrev pub try_write {ℓ} :
    {Db : Type 0} {A : Type ℓ}
    → Db
    → Result A
    → (A → Db × Result (Unit {0}))
    → Db × Result (Unit {0})
try_write db (err e) k = (db, err e)
try_write db (ok a) k = k a

abbrev pub text_or_empty : Codecs → Option Bytes → String
text_or_empty c none = ""
text_or_empty c (some bytes) = c.from_utf8_lossy bytes

module _ {Db : Type 0} (d : Database Db) (c : Codecs) where
  -- what a snapshot holds
  unfoldable pub snapshot_meta : Db → ℕ → Result SnapshotMeta
  unfolding get
  snapshot_meta db height = do
    root ← get d db (key_state_root height)
    accounts ←
        decode_prefix c.account "decode account" prefix_account
          (d.prefix_iterator db prefix_account)
    ok (record {
      height = height;
      state_root = text_or_empty c root;
      account_count = length accounts;
      accounts = sort_by (λ a. a.address) accounts;
    })

  unfoldable pub save_snapshot : Db → SnapshotMeta → Db × Result (Unit {0})
  unfolding write_batch
  save_snapshot db meta =
      try_write db (or_error "encode snapshot" (c.snapshot.to_vec meta))
        λ bytes. write_batch d db ((key_snapshot meta.height, bytes) ∷ [])

  -- The result holds the snapshot only for its callers, which drop it.
  unfoldable pub create_snapshot_if_due : Db → ℕ → Db × Result (Unit {0})
  unfolding snapshot_meta save_snapshot
  create_snapshot_if_due db height =
      if height == 0 || not (height % snapshot_interval == 0)
      then (db, ok tt)
      else try_write db (snapshot_meta db height) (save_snapshot db)

  unfoldable pub list_snapshots : Db → Result (List SnapshotMeta)
  list_snapshots db =
      decode_prefix c.snapshot "decode snapshot" prefix_snapshot
        (d.prefix_iterator db prefix_snapshot)
      >>= λ out. ok (sort_by (λ m. m.height) out)

  unfoldable pub bootstrap_from_snapshot : Db → SnapshotMeta → Db × Result (Unit {0})
  unfolding write_batch
  bootstrap_from_snapshot db meta = try_write db (account_puts c meta.accounts) λ puts.
      write_batch d db (
        puts
        ++ (key_meta_head, encode_u64 meta.height)
          ∷ (key_state_root meta.height, as_bytes meta.state_root)
          ∷ [])
