-- ===== src/Storage/Import.antt =====
-- src/storage/rpc.rs: the import of a chain and of accounts that were kept as JSON.
pub mod Sequence
use Prim.Native.String.{String, ◌++◌ as text_append}
use platarium_core.Base.{
  ℕ, suc, ◌+◌, ◌-◌, ◌&&◌, not, Bool, Option, none, some, List, [], ◌∷◌, ◌++◌, map, ◌==◌,
  if◌then◌else◌, u64_mod, wrapping_add, Result, ok, err, ◌>>=◌, other,
}
use platarium_core.Data.Int.{ℤ, pos}
use platarium_core.Data.Ord.{◌==◌ as same, string_eq, string_ord}
use platarium_core.Data.Map.{HashMap, get, insert, keys}
use platarium_core.Data.Sort.Plain.{sort}
use platarium_core.Json.{Json}
use platarium_core.StateFile.{StateFileData}
use platarium_core.Transaction.Gateway.{texts}
use platarium_core.Storage.{
  Bytes, Database, Codecs, AccountRecord, ReceiptRecord, BlockRecordStored, BlockCommit,
}
use platarium_core.Storage.Schema.{key_meta_head, encode_u64}
use platarium_core.Storage.Store.{put, head_height, write_batch}
use platarium_core.Storage.Snapshot.{account_puts, try_write}
use platarium_core.Storage.Query.{dedup}
use platarium_core.Storage.Commit.{commit_block, then_write, text_at}

-- What serde_json decodes for an import.
pub record ImportDecoder (Value : Type 0) : Type 0 where
  pub accounts_from_str : String → Option (List AccountRecord)
  pub state_from_str : String → Option StateFileData
  pub as_i64 : Value → Option ℤ
  pub to_string : Value → String

-- The `BTreeMap`s of `parse_accounts_for_migration`
abbrev pub plp_rows : HashMap String Bytes → List (String × String × Bytes) → HashMap String Bytes
plp_rows bal [] = bal
plp_rows bal ((addr, asset, balance) ∷ rows) =
    plp_rows (if same asset "PLP" then insert bal addr balance else bal) rows

abbrev pub all_rows : {V : Type 0} → HashMap String V → List (String × V) → HashMap String V
all_rows m [] = m
all_rows m ((addr, v) ∷ rows) = all_rows (insert m addr v) rows

abbrev pub text_or_zero : Option Bytes → Bytes
text_or_zero none = b'0' ∷ []
text_or_zero (some text) = text

abbrev pub nonce_or_zero : Option ℕ → ℕ
nonce_or_zero none = 0
nonce_or_zero (some n) = n

-- A `BTreeSet` of the addresses is sorted and holds each once.
unfoldable pub accounts_of_state : StateFileData → List AccountRecord
accounts_of_state file =
    let bal = plp_rows [] file.asset_balances in
    let uplp = all_rows [] file.uplp_balances in
    let nonces = all_rows [] file.nonces in
    let addrs = dedup (sort (keys bal ++ (keys uplp ++ keys nonces))) in
    map
      (λ address. record {
        address = address;
        balance = text_or_zero (get bal address);
        uplp_balance = text_or_zero (get uplp address);
        nonce = nonce_or_zero (get nonces address);
      })
      addrs

module _ {Value : Type 0} (j : Json Value) (i : ImportDecoder Value) where
  unfoldable pub parse_accounts_for_migration : String → Result (List AccountRecord)
  unfolding accounts_of_state
  parse_accounts_for_migration accounts_json = elim (i.accounts_from_str accounts_json) [
    | some accounts ↦ ok accounts
    | none ↦ elim (i.state_from_str accounts_json) [
      | some file ↦ ok (accounts_of_state file)
      | none ↦ err (other "invalid accounts JSON")
    ]
  ]

  abbrev pub array_at : Value → String → List Value
  array_at v name = elim (j.get v name) [
    | none ↦ []
    | some x ↦ elim (j.as_array x) [ none ↦ [] | some xs ↦ xs ]
  ]

  abbrev pub text_or : String → Value → String → String
  text_or default v name = elim (text_at j v name) [ none ↦ default | some s ↦ s ]

  abbrev pub number_at : Value → String → Option ℕ
  number_at v name = elim (j.get v name) [ none ↦ none | some x ↦ j.as_u64 x ]

  abbrev pub time_at : Value → ℤ
  time_at v = elim (j.get v "timestamp") [
    | none ↦ pos 0
    | some x ↦ elim (i.as_i64 x) [ none ↦ pos 0 | some t ↦ t ]
  ]

  -- A gateway's block number counts from 0, a height from 1.
  abbrev pub height_at : Value → ℕ
  height_at b = elim (number_at b "height") [
    | some h ↦ h
    | none ↦ elim (number_at b "blockNumber") [ none ↦ 0 | some bn ↦ wrapping_add u64_mod bn 1 ]
  ]

  abbrev pub txs_by_hash : HashMap String Value → List Value → HashMap String Value
  txs_by_hash m [] = m
  txs_by_hash m (t ∷ ts) =
      txs_by_hash (elim (text_at j t "hash") [ none ↦ m | some h ↦ insert m h t ]) ts

  abbrev pub tx_text : HashMap String Value → String → String
  tx_text m h = elim (get m h) [
    | some v ↦ i.to_string v
    | none ↦ text_append "{\"hash\":\"" (text_append h "\"}")
  ]

  -- The commit of one block of the file
  unfoldable pub commit_of : HashMap String Value → Value → BlockCommit
  commit_of tx_by_hash b =
      let height = height_at b in
      let tx_hashes = texts j (array_at b "txHashes") in
      let state_root = text_or "" b "stateRoot" in
      record {
        block = record {
          height = height;
          previous_hash = text_or "0" b "previousHash";
          timestamp = time_at b;
          tx_hashes = tx_hashes;
          merkle_root = text_or "0" b "merkleRoot";
          state_root = state_root;
          block_hash = text_or "" b "blockHash";
          producer_id = text_or "" b "producerNodeId";
        };
        tx_jsons = map (tx_text tx_by_hash) tx_hashes;
        accounts = [];
        receipts =
            map (λ h. record { tx_hash = h; status = "ok"; fee_uplp = 0; block_height = height })
              tx_hashes;
        state_root = state_root;
      }

  abbrev pub commits_of : HashMap String Value → List Value → List BlockCommit
  commits_of tx_by_hash [] = []
  commits_of tx_by_hash (b ∷ bs) =
      let rest = commits_of tx_by_hash bs in
      if height_at b == 0 then rest else commit_of tx_by_hash b ∷ rest

module _ {Db Value : Type 0} (d : Database Db) (c : Codecs) (j : Json Value) where
  -- The head is set to the height before the block's, unless the block is next anyway.
  abbrev pub force_head : Db → ℕ → ℕ → Db × Result (Unit {0})
  force_head db head height =
      if not (wrapping_add u64_mod head 1 == height) && not (head == 0 && height == 1)
      then put d db key_meta_head (encode_u64 (height - 1))
      else (db, ok tt)

  unfoldable pub import_one : Db → BlockCommit → Db × Result (Unit {0})
  unfolding put head_height commit_block
  import_one db commit = try_write db (head_height d db) λ head.
      then_write (force_head db head commit.block.height) λ db'. commit_block d c j db' commit

  -- The loop over the blocks: the first error ends it, and what was committed stays.
  unfoldable pub import_all : Db → List BlockCommit → Db × Result (Unit {0})
  unfolding import_one
  import_all db [] = (db, ok tt)
  import_all db (commit ∷ commits) = then_write (import_one db commit) λ db'. import_all db' commits

  unfoldable pub import_accounts : Db → List AccountRecord → Db × Result (Unit {0})
  unfolding write_batch
  import_accounts db accounts = try_write db (account_puts c accounts) (write_batch d db)

  abbrev pub optional_accounts : ImportDecoder Value → Db → Option String → Db × Result (Unit {0})
  optional_accounts i db none = (db, ok tt)
  optional_accounts i db (some accounts_json) =
      try_write db (parse_accounts_for_migration j i accounts_json) (import_accounts db)

  -- `migrate_json_to_rocks` on an open store, without the printed answer
  unfoldable pub migrate_json_to_rocks :
      ImportDecoder Value → Db → String → Option String → Db × Result (Unit {0})
  unfolding import_all import_accounts parse_accounts_for_migration commit_of
  migrate_json_to_rocks i db chain_json accounts = elim (j.from_str chain_json) [
    | none ↦ (db, err (other "invalid chain JSON"))
    | some chain ↦ then_write (optional_accounts i db accounts) λ db'. import_all db' (
        commits_of j i (txs_by_hash j i [] (array_at j i chain "transactions"))
          (array_at j i chain "blocks"))
  ]
