-- ===== src/Storage/Commit/Batch.antt =====
-- src/storage/commit.rs: what the batch of a block leaves at the keys of the chain.
use Prim.Native.String.{String}
use platarium_core.Base.{
  ℕ, suc, ◌≡◌, refl, ap, Bool, true, false, ◌||◌, Option, none, some, List, [], ◌∷◌, ◌++◌, ◌==◌,
  Result, ok, err, ◌>>=◌, arith, All, Bool-cases, Option-cases, OnOk, inl, inr,
}
use platarium_core.Data.BigEndian.{bytes_eq, bytes_same, bytes_same_iff}
use platarium_core.Json.{Json}
use platarium_core.Storage.{
  Bytes, WriteBatch, Codecs, BlockCommit, AccountRecord, ReceiptRecord, or_error, last_put,
}
use platarium_core.Storage.Schema.{key_account, key_tx, key_receipt, key_idx_addr, key_idx_block}
use platarium_core.Storage.Snapshot.{account_puts}
use platarium_core.Storage.Commit.{
  receipt_puts, block_puts, address_put, address_puts, text_at, tx_puts, whole_batch,
}

-- The keys of transactions, indexes, accounts and receipts
abbrev pub is_record_key : Bytes → Bool
is_record_key [] = false
is_record_key (h ∷ rest) = h == b't' || (h == b'i' || (h == b'a' || h == b'r'))

abbrev Records : WriteBatch → Type 0
Records batch = All (λ p. is_record_key p.0 ≡ true) batch

Records-append : (a b : WriteBatch) → Records a → Records b → Records (a ++ b)
Records-append [] b h k = k
Records-append (p ∷ a) b (h, hs) k = (h, Records-append a b hs k)

key-differs :
    (j k : Bytes) → is_record_key j ≡ true → is_record_key k ≡ false → bytes_same j k ≡ false
key-differs j k h g = elim (Bool-cases (bytes_same j k)) [
  | inr e ↦ e
  | inl e ↦ absurd (ground (arith, h, g, ap is_record_key ((bytes_same_iff j k).0 e)))
]

last_put-Records :
    (batch : WriteBatch) (k : Bytes)
    → Records batch
    → is_record_key k ≡ false
    → last_put batch k ≡ none
unfolding last_put
last_put-Records [] k h g = refl
last_put-Records ((j, v) ∷ batch) k (h, hs) g =
    rw (last_put-Records batch k hs g) (rw (key-differs j k h g) refl)

-- What follows without the key changes nothing.
last_put-append :
    (a b : WriteBatch) (k : Bytes) → last_put b k ≡ none → last_put (a ++ b) k ≡ last_put a k
unfolding last_put
last_put-append [] b k h = h
last_put-append ((j, v) ∷ a) b k h = rw (last_put-append a b k h) refl

-- One more record in front of a batch
put_first-Records :
    (message : String) (key : Bytes) (o : Option Bytes) (rest : Result WriteBatch)
    → is_record_key key ≡ true
    → OnOk Records rest
    → OnOk Records (or_error message o >>= λ bytes. rest >>= λ others. ok ((key, bytes) ∷ others))
put_first-Records message key none rest h hs = tt
put_first-Records message key (some bytes) (err e) h hs = tt
put_first-Records message key (some bytes) (ok others) h hs = (h, hs)

account_puts-Records :
    (c : Codecs) (accounts : List AccountRecord) → OnOk Records (account_puts c accounts)
unfolding key_account
account_puts-Records c [] = tt
account_puts-Records c (a ∷ accounts) =
    put_first-Records "encode account" (key_account a.address) (c.account.to_vec a)
      (account_puts c accounts) refl (account_puts-Records c accounts)

receipt_puts-Records :
    (c : Codecs) (receipts : List ReceiptRecord) → OnOk Records (receipt_puts c receipts)
unfolding key_receipt
receipt_puts-Records c [] = tt
receipt_puts-Records c (r ∷ receipts) =
    put_first-Records "encode receipt" (key_receipt r.tx_hash) (c.receipt.to_vec r)
      (receipt_puts c receipts) refl (receipt_puts-Records c receipts)

tx_puts-Records :
    (more : String → String → WriteBatch)
    → ((hash tx_json : String) → Records (more hash tx_json))
    → (height i : ℕ) (hashes tx_jsons : List String)
    → Records (tx_puts more height i hashes tx_jsons)
unfolding tx_puts key_tx key_idx_block
tx_puts-Records more each height i [] tx_jsons = tt
tx_puts-Records more each height i (hash ∷ hashes) [] = tt
tx_puts-Records more each height i (hash ∷ hashes) (tx_json ∷ tx_jsons) = (
  refl,
  (
    refl,
    Records-append (more hash tx_json) _ (each hash tx_json)
        (tx_puts-Records more each height (suc i) hashes tx_jsons),
  ),
)

address_put-Records :
    (height : ℕ) (hash : String) (o : Option String) → Records (address_put height hash o)
unfolding key_idx_addr
address_put-Records height hash none = tt
address_put-Records height hash (some a) = (refl, tt)

pub address_puts-Records :
    {Value : Type 0} (j : Json Value) (height : ℕ) (hash tx_json : String)
    → Records (address_puts j height hash tx_json)
address_puts-Records j height hash tx_json = elim (Option-cases (j.from_str tx_json)) [
  | inl e ↦ rw (e, address_puts) tt
  | inr (v, e) ↦
      rw (e, address_puts)
        (Records-append (address_put height hash (text_at j v "from")) _
          (address_put-Records height hash (text_at j v "from"))
          (address_put-Records height hash (text_at j v "to")))
]

-- What the first puts and the records after them leave
abbrev pub LeavesHead : (Bytes → WriteBatch) → Option Bytes → WriteBatch → Type 0
LeavesHead head o batch =
    (bytes : Bytes) × (o ≡ some bytes)
    × ((k : Bytes) → is_record_key k ≡ false → last_put batch k ≡ last_put (head bytes) k)

assembled_lem :
    (head : Bytes → WriteBatch) (txs : WriteBatch) (o : Option Bytes)
    (accounts receipts : Result WriteBatch)
    → Records txs
    → OnOk Records accounts
    → OnOk Records receipts
    → OnOk (LeavesHead head o) (
        or_error "encode block" o >>= λ bytes.
        accounts >>= λ a. receipts >>= λ r. ok (head bytes ++ (txs ++ (a ++ r))))
assembled_lem head txs none accounts receipts h1 h2 h3 = tt
assembled_lem head txs (some bytes) (err e) receipts h1 h2 h3 = tt
assembled_lem head txs (some bytes) (ok a) (err e) h1 h2 h3 = tt
assembled_lem head txs (some bytes) (ok a) (ok r) h1 h2 h3 = (
  bytes,
  refl,
  λ k h. last_put-append (head bytes) (txs ++ (a ++ r)) k (
      last_put-Records (txs ++ (a ++ r)) k
        (Records-append txs (a ++ r) h1 (Records-append a r h2 h3)) h),
)

-- At the keys of the chain a block's batch leaves what its first three puts leave.
pub whole_batch-OnOk :
    (c : Codecs) (more : String → String → WriteBatch) (commit : BlockCommit)
    → ((hash tx_json : String) → Records (more hash tx_json))
    → OnOk
        (LeavesHead (block_puts commit) (c.block.to_vec commit.block))
        (whole_batch c more commit)
unfolding whole_batch
whole_batch-OnOk c more commit each =
    assembled_lem (block_puts commit)
      (tx_puts more commit.block.height 0 commit.block.tx_hashes commit.tx_jsons)
      (c.block.to_vec commit.block) (account_puts c commit.accounts)
      (receipt_puts c commit.receipts)
      (tx_puts-Records more each commit.block.height 0 commit.block.tx_hashes commit.tx_jsons)
      (account_puts-Records c commit.accounts) (receipt_puts-Records c commit.receipts)
