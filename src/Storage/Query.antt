-- ===== src/Storage/Query.antt =====
-- src/storage/query.rs: reading the records back.
use Prim.Native.String.{String}
use platarium_core.Base.{
  ℕ, Option, none, some, List, [], ◌∷◌, ◌++◌, ◌==◌, if◌then◌else◌, Result, ok, err, ◌>>=◌,
}
use platarium_core.Data.Ord.{◌==◌ as same, string_eq, string_ord}
use platarium_core.Data.Sort.Plain.{sort}
use platarium_core.Data.Parse.{starts_with}
use platarium_core.Data.Bytes.{as_bytes}
use platarium_core.Storage.{
  Bytes, Database, Codec, Codecs, AccountRecord, ReceiptRecord, BlockRecordStored, SnapshotMeta,
  or_error,
}
use platarium_core.Storage.Schema.{
  prefix_idx_addr, key_account, key_tx, key_block, key_receipt, key_state_root, key_snapshot,
}
use platarium_core.Storage.Store.{get, head_height}

abbrev pub decode_found : {A : Type 0} → Codec A → String → Option Bytes → Result (Option A)
decode_found codec message none = ok none
decode_found codec message (some bytes) =
    or_error message (codec.from_slice bytes) >>= λ a. ok (some a)

-- What follows the last `/`: `rposition`
abbrev pub after_last_slash : Bytes → Option Bytes
after_last_slash [] = none
after_last_slash (b ∷ bs) = elim (after_last_slash bs) [
  | some rest ↦ some rest
  | none ↦ if b == b'/' then some bs else none
]

-- `dedup`: of equal neighbours the first is kept.
abbrev pub dedup_after : String → List String → List String
dedup_after s [] = []
dedup_after s (t ∷ ts) = if same s t then dedup_after s ts else t ∷ dedup_after t ts

abbrev pub dedup : List String → List String
dedup [] = []
dedup (s ∷ ss) = s ∷ dedup_after s ss

module _ {Db : Type 0} (d : Database Db) (c : Codecs) where
  unfoldable pub get_head : Db → Result ℕ
  unfolding head_height
  get_head db = head_height d db

  abbrev pub text_found : Option Bytes → Option String
  text_found none = none
  text_found (some bytes) = some (c.from_utf8_lossy bytes)

  unfoldable pub get_tx : Db → String → Result (Option String)
  unfolding get
  get_tx db tx_hash = get d db (key_tx tx_hash) >>= λ found. ok (text_found found)

  unfoldable pub get_block : Db → ℕ → Result (Option BlockRecordStored)
  unfolding get
  get_block db height = get d db (key_block height) >>= decode_found c.block "decode block"

  unfoldable pub get_account : Db → String → Result (Option AccountRecord)
  unfolding get
  get_account db address =
      get d db (key_account address) >>= decode_found c.account "decode account"

  unfoldable pub get_receipt : Db → String → Result (Option ReceiptRecord)
  unfolding get
  get_receipt db tx_hash =
      get d db (key_receipt tx_hash) >>= decode_found c.receipt "decode receipt"

  unfoldable pub get_snapshot : Db → ℕ → Result (Option SnapshotMeta)
  unfolding get
  get_snapshot db height =
      get d db (key_snapshot height) >>= decode_found c.snapshot "decode snapshot"

  unfoldable pub get_state_root : Db → ℕ → Result (Option String)
  unfolding get
  get_state_root db height = get d db (key_state_root height) >>= λ found. ok (text_found found)

  -- The loop over the index
  abbrev pub hash_at : Bytes → List String
  hash_at key = elim (after_last_slash key) [
    | none ↦ []
    | some bytes ↦ let hash = c.from_utf8_lossy bytes in if same hash "" then [] else hash ∷ []
  ]

  abbrev pub collect_hashes : Bytes → List (Result (Bytes × Bytes)) → Result (List String)
  collect_hashes prefix [] = ok []
  collect_hashes prefix (err e ∷ items) = err e
  collect_hashes prefix (ok (key, value) ∷ items) =
      let rest = collect_hashes prefix items in
      if starts_with key prefix then (rest >>= λ others. ok (hash_at key ++ others)) else ok []

  unfoldable pub list_tx_hashes_for_address : Db → String → Result (List String)
  list_tx_hashes_for_address db address =
      let prefix = prefix_idx_addr ++ (as_bytes address ++ b'/' ∷ []) in
      collect_hashes prefix (d.prefix_iterator db prefix) >>= λ hashes. ok (dedup (sort hashes))
