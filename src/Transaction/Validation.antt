-- ===== src/Transaction/Validation.antt =====
-- What validation of a transaction promises, and what the signed message binds.
use mathlib.Core.List.{Permᴰ}
use Prim.Native.String.{String}
use text.Mathlib.TextEquality.{eq_iff}
use platarium_core.Base.{
  ℕ, ◌<◌, ◌≡◌, ◌↔◌, refl, sym, ap, true, false, Bool, List, arith, Result, ok, err,
}
use platarium_core.Data.Ord.{string_ord}
use platarium_core.Data.Sort.Order.{HasDistinctKeys, sort_by-perm}
use platarium_core.Asset.{Asset, as_canonical_inj}
use platarium_core.Crypto.{Crypto, verify_signature, hash_message}
use platarium_core.Transaction.{
  Transaction, TransactionHashData, unwrap_or, message, compute_hash, new, verify_signatures,
  validate_hash, validate_basic, signature_verdict,
}

-- Two transactions with the same signed message agree on the sender, the receiver, the asset, the
-- amount, the fee and the nonce.
pub message_inj :
    (tx tx' : Transaction)
    → message tx ≡ message tx'
    → (tx.from ≡ tx'.from)
      × (tx.to ≡ tx'.to)
      × (tx.asset ≡ tx'.asset)
      × (tx.amount ≡ tx'.amount)
      × (tx.fee_uplp ≡ tx'.fee_uplp)
      × (tx.nonce ≡ tx'.nonce)
unfolding message
message_inj tx tx' h = (
  ap (λ (m : TransactionHashData). m.from) h,
  ap (λ (m : TransactionHashData). m.to) h,
  as_canonical_inj tx.asset tx'.asset (ap (λ (m : TransactionHashData). m.asset) h),
  ap (λ (m : TransactionHashData). m.amount) h,
  ap (λ (m : TransactionHashData). m.fee_uplp) h,
  ap (λ (m : TransactionHashData). m.nonce) h,
)

message-perm :
    (tx : Transaction) (reads writes : List String)
    → HasDistinctKeys (λ (a : String). a) tx.reads
    → HasDistinctKeys (λ (a : String). a) tx.writes
    → Permᴰ tx.reads reads
    → Permᴰ tx.writes writes
    → message (record tx { reads = reads; writes = writes }) ≡ message tx
unfolding message
message-perm tx reads writes dr dw pr pw = λ i. record (message tx) {
  reads = sym (sort_by-perm (λ (a : String). a) pr dr) i;
  writes = sym (sort_by-perm (λ (a : String). a) pw dw) i;
}

module _ (c : Crypto TransactionHashData) where
  -- The hash of a transaction does not depend on the order in which its sets of reads and writes
  -- iterate. (The elements of a set are distinct.)
  pub compute_hash-perm :
      (tx : Transaction) (reads writes : List String)
      → HasDistinctKeys (λ (a : String). a) tx.reads
      → HasDistinctKeys (λ (a : String). a) tx.writes
      → Permᴰ tx.reads reads
      → Permᴰ tx.writes writes
      → compute_hash c (record tx { reads = reads; writes = writes }) ≡ compute_hash c tx
  unfolding compute_hash
  compute_hash-perm tx reads writes dr dw pr pw =
      ap (λ m. c.hex_encode (hash_message c m)) (message-perm tx reads writes dr dw pr pw)

  pub validate_hash-new :
      (from to : String) (asset : Asset) (amount fee nonce : ℕ) (reads writes : List String)
      (sig_main sig_derived : String)
      → validate_hash c (new c from to asset amount fee nonce reads writes sig_main sig_derived)
        ≡ true
  unfolding validate_hash new
  validate_hash-new from to asset amount fee nonce reads writes sig_main sig_derived =
      (eq_iff _ _).1 refl

  -- Both signatures verify exactly when the main one is good for the key that the transaction
  -- names, or for its sender where it names none, and the derived one for the derived key that it
  -- names, or for the main key. Nothing relates a key that is named to the sender.
  pub verify_signatures_iff :
      (tx : Transaction)
      → let pub_main = unwrap_or tx.pub_main tx.from in
        (verify_signatures c tx ≡ ok true) ↔ (
          (verify_signature c (message tx) tx.sig_main pub_main ≡ ok true)
          × (verify_signature c (message tx) tx.sig_derived (unwrap_or tx.pub_derived pub_main)
              ≡ ok true))
  unfolding verify_signatures
  verify_signatures_iff tx = (ground arith, ground arith)

  signature_verdict-ok : (r : Result Bool) → signature_verdict c r ≡ ok tt → r ≡ ok true
  signature_verdict-ok (ok true) h = refl
  signature_verdict-ok (ok false) h = cc
  signature_verdict-ok (err e) h = cc

  pub validate_basic-verify_signatures :
      (tx : Transaction)
      → (validate_basic c tx ≡ ok tt)
        ↔ ((0 < tx.amount) × (0 < tx.fee_uplp) × (verify_signatures c tx ≡ ok true))
  unfolding validate_basic
  validate_basic-verify_signatures tx = (
    (λ h.
        (ground arith, ground arith, signature_verdict-ok (verify_signatures c tx) (ground arith))),
    (λ h. ground arith),
  )

  -- A transaction is valid exactly when its amount and its fee are positive and two signatures of its
  -- message verify: the main one for the key that the transaction names, or for its sender where it
  -- names none, and the derived one for the derived key that it names, or for the main one.
  pub validate_basic_iff :
      (tx : Transaction)
      → let pub_main = unwrap_or tx.pub_main tx.from in
        (validate_basic c tx ≡ ok tt) ↔ (
          (0 < tx.amount)
          × (0 < tx.fee_uplp)
          × (verify_signature c (message tx) tx.sig_main pub_main ≡ ok true)
          × (verify_signature c (message tx) tx.sig_derived (unwrap_or tx.pub_derived pub_main)
              ≡ ok true))
  validate_basic_iff tx = (
    (λ h.
        let (amount, fee, both) = (validate_basic-verify_signatures tx).0 h in
        let (main, derived) = (verify_signatures_iff tx).0 both in (amount, fee, main, derived)),
    (λ h.
        let (amount, fee, main, derived) = h in
        (validate_basic-verify_signatures tx).1
          (amount, fee, (verify_signatures_iff tx).1 (main, derived))),
  )
