-- ===== src/Transaction.antt =====
-- src/core/transaction.rs: transactions, their hash and their validation.
pub mod Validation
pub mod Gateway
pub mod Signed
use Prim.Native.String.{String}
use platarium_core.Base.{
  ℕ, Bool, true, false, ◌&&◌, Option, none, some, List, ltb, ◌==◌, if◌then◌else◌, Result, ok, err,
  ◌>>=◌, ◌>>◌, guard, PlatariumError, invalid_amount, invalid_fee, invalid_signature,
}
use platarium_core.Data.Ord.{◌==◌ as same, string_eq, string_ord}
use platarium_core.Data.Sort.{sort_by}
use platarium_core.Asset.{Asset, as_canonical}
use platarium_core.Crypto.{Crypto, hash_message, verify_signature}

abbrev pub min_fee_uplp : ℕ
min_fee_uplp = 1

-- A `HashSet<String>` is the list of its elements, in the order of iteration.
pub record Transaction : Type 0 where
  pub hash : String
  pub from : String
  pub to : String
  pub asset : Asset
  pub amount : ℕ
  pub fee_uplp : ℕ
  pub nonce : ℕ
  pub reads : List String
  pub writes : List String
  pub sig_main : String
  pub sig_derived : String
  pub pub_main : Option String
  pub pub_derived : Option String

-- What is hashed and signed: `TransactionHashData`
pub record TransactionHashData : Type 0 where
  pub from : String
  pub to : String
  pub asset : String
  pub amount : ℕ
  pub fee_uplp : ℕ
  pub nonce : ℕ
  pub reads : List String
  pub writes : List String

abbrev pub unwrap_or : Option String → String → String
unwrap_or none d = d
unwrap_or (some s) d = s

-- `hash_data`, and the message that `compute_hash` and `verify_signatures` build from it
unfoldable pub hash_data : Transaction → List String × List String
hash_data tx = (sort_by (λ a. a) tx.reads, sort_by (λ a. a) tx.writes)

unfoldable pub message : Transaction → TransactionHashData
unfolding hash_data
message tx = record {
  from = tx.from;
  to = tx.to;
  asset = as_canonical tx.asset;
  amount = tx.amount;
  fee_uplp = tx.fee_uplp;
  nonce = tx.nonce;
  reads = (hash_data tx).0;
  writes = (hash_data tx).1;
}

module _ (c : Crypto TransactionHashData) where
  unfoldable pub compute_hash : Transaction → String
  unfolding message hash_message
  compute_hash tx = c.hex_encode (hash_message c (message tx))

  -- `Transaction::new`
  unfoldable pub new :
      String
      → String
      → Asset
      → ℕ
      → ℕ
      → ℕ
      → List String
      → List String
      → String
      → String
      → Transaction
  unfolding compute_hash
  new from to asset amount fee_uplp nonce reads writes sig_main sig_derived =
      let tx : Transaction = record {
        hash = "";
        from = from;
        to = to;
        asset = asset;
        amount = amount;
        fee_uplp = fee_uplp;
        nonce = nonce;
        reads = reads;
        writes = writes;
        sig_main = sig_main;
        sig_derived = sig_derived;
        pub_main = none;
        pub_derived = none;
      } in
      record tx { hash = compute_hash tx }

  unfoldable pub verify_signatures : Transaction → Result Bool
  verify_signatures tx =
      let pub_main = unwrap_or tx.pub_main tx.from in
      let pub_derived = unwrap_or tx.pub_derived pub_main in
      verify_signature c (message tx) tx.sig_main pub_main >>= λ main_verified.
      if main_verified
      then (verify_signature c (message tx) tx.sig_derived pub_derived >>= λ derived_verified.
          ok (main_verified && derived_verified))
      else ok false

  unfoldable pub validate_hash : Transaction → Bool
  unfolding compute_hash
  validate_hash tx = same tx.hash (compute_hash tx)

  -- A failure inside the verification is reported as an invalid signature too.
  abbrev pub signature_verdict : Result Bool → Result (Unit {0})
  signature_verdict (ok true) = ok tt
  signature_verdict (ok false) = err (invalid_signature "One or both signatures are invalid")
  signature_verdict (err e) = err (invalid_signature "Signature verification error")

  unfoldable pub validate_basic : Transaction → Result (Unit {0})
  unfolding verify_signatures
  validate_basic tx = do
    guard (tx.amount == 0) invalid_amount
    guard (ltb tx.fee_uplp min_fee_uplp) (invalid_fee min_fee_uplp tx.fee_uplp)
    signature_verdict (verify_signatures tx)
