-- ===== src/Transaction/Signed.antt =====
-- src/core/transaction.rs with src/signature.rs: what a wallet signs, validation accepts.
use platarium_core.Base.{◌<◌, ◌≡◌, some, ok}
use platarium_core.Crypto.{Crypto}
use platarium_core.Crypto.Signing.{Secp, sign_message}
use platarium_core.Crypto.Signing.Verifies.{IsSigner, sign_message-verifies}
use platarium_core.Transaction.{Transaction, TransactionHashData, message, validate_basic}
use platarium_core.Transaction.Validation.{verify_signatures_iff, validate_basic-verify_signatures}

module _ {Secret Signature : Type 0} (c : Crypto TransactionHashData)
    (k : Secp Secret Signature) where
  -- the transaction with the signatures and the public keys of two secrets
  abbrev pub signed_with : Secret → Secret → Transaction → Transaction
  signed_with main derived tx =
      let by_main = sign_message c k main (message tx) in
      let by_derived = sign_message c k derived (message tx) in
      record tx {
        sig_main = by_main.signature_compact;
        sig_derived = by_derived.signature_compact;
        pub_main = some by_main.pub_key;
        pub_derived = some by_derived.pub_key;
      }

  -- A transaction that is signed with two secrets, whoever holds them, is valid where its amount and
  -- its fee are positive: the suffix of a signature and the signatures' fields of the transaction
  -- do not matter. The libraries verify what they sign, and write 64 bytes as 128 digits.
  pub sign_message-validates :
      IsSigner c k
      → (main derived : Secret) (tx : Transaction) → 0 < tx.amount
      → 0 < tx.fee_uplp
      → validate_basic c (signed_with main derived tx) ≡ ok tt
  unfolding message
  sign_message-validates lawful main derived tx amount fee =
      (validate_basic-verify_signatures c (signed_with main derived tx)).1 (
        amount,
        fee,
        (verify_signatures_iff c (signed_with main derived tx)).1 (
          sign_message-verifies c k lawful main (message tx),
          sign_message-verifies c k lawful derived (message tx),
        ),
      )
