-- ===== src/Rpc/Wallet/Signed.antt =====
-- src/core/core_rpc.rs with src/signer.rs and src/core/transaction.rs: what `sign_transaction`
-- answers.
use Prim.Native.String.{String, ◌++◌ as text_append}
use mathlib.Core.Path.{subst}
use platarium_core.Base.{
  ℕ, ◌<◌, ◌≡◌, refl, ap, ◌∙◌, true, some, List, [], ◌∷◌, Result, ok, ◌>>=◌, >>=-eq-ok, >>-eq-ok,
  ok_inj,
}
use platarium_core.Data.Ord.{string_eq}
use platarium_core.Data.Set.{collect_set}
use platarium_core.Json.{Json}
use platarium_core.Crypto.{Crypto, hash_message, normalize_signature_hex}
use platarium_core.Crypto.Signing.{
  Secp, DualSignature, sign_message, sign_with_both_keys, with_type, or_fail, generate_master_seed,
  derive_hkdf_key,
}
use platarium_core.Crypto.Signing.Verifies.{IsSigner, sign_message-verifies_normalized}
use platarium_core.Keys.{KeyLibraries}
use platarium_core.Transaction.{
  Transaction, TransactionHashData, message, hash_data, validate_basic, validate_hash, compute_hash,
}
use platarium_core.Transaction.Gateway.{parse_canonical, require}
use platarium_core.Transaction.Validation.{verify_signatures_iff, validate_basic-verify_signatures}
use platarium_core.Rpc.Params.{RequestDecoder, param_str, param_opt_str, param_u64}
use platarium_core.Rpc.Wallet.{or_else, both, tx_hash_data, sign_transaction_method}

-- What the two keys of a mnemonic sign
module _ {Message Secret Signature : Type 0} (c : Crypto Message) (k : Secp Secret Signature) where
  abbrev pub dual : Secret → Secret → Message → DualSignature
  dual main derived m = record {
    hash = c.hex_encode (hash_message c m);
    signatures =
        with_type c k "main" (sign_message c k main m)
        ∷ with_type c k "hkdf" (sign_message c k derived m)
        ∷ [];
  }

  pub sign_with_both_keys-dual :
      (m : Message) (mnemonic part : String) (signed : DualSignature)
      → sign_with_both_keys c k m mnemonic part ≡ ok signed
      → (main : Secret) × (derived : Secret) × (dual main derived m ≡ signed)
  unfolding sign_with_both_keys
  sign_with_both_keys-dual m mnemonic part =
      >>=-eq-ok (generate_master_seed c k mnemonic part) _ λ seed _.
        >>=-eq-ok (derive_hkdf_key c k seed (text_append "mainKey-" part)) _ λ main_bytes _.
          >>=-eq-ok (derive_hkdf_key c k seed (text_append "hkdfKey-" part)) _ λ hkdf_bytes _.
            >>=-eq-ok (or_fail "Invalid main private key" (k.secret_from_slice main_bytes)) _
              λ main _.
                >>=-eq-ok (or_fail "Invalid HKDF private key" (k.secret_from_slice hkdf_bytes)) _
                  λ derived _ signed h. (main, derived, ok_inj h)

module _ {Secret Signature : Type 0} (c : Crypto TransactionHashData)
    (secp : Secp Secret Signature) where
  -- The transaction of an answer, for the two keys
  abbrev pub answered :
      String
      → String
      → String
      → ℕ
      → ℕ
      → ℕ
      → List String
      → List String
      → DualSignature
      → Result Transaction
  answered from to asset amount fee_uplp nonce reads writes signed =
      both signed.signatures >>= λ pair. ok (record {
        hash = signed.hash;
        from = from;
        to = to;
        asset = parse_canonical asset;
        amount = amount;
        fee_uplp = fee_uplp;
        nonce = nonce;
        reads = reads;
        writes = writes;
        sig_main = normalize_signature_hex pair.0.signature_compact;
        sig_derived = normalize_signature_hex pair.1.signature_compact;
        pub_main = some pair.0.pub_key;
        pub_derived = some pair.1.pub_key;
      })

  abbrev pub IsAccepted : Transaction → Type 0
  IsAccepted tx =
      0 < tx.amount → 0 < tx.fee_uplp → (validate_basic c tx ≡ ok tt) × (validate_hash c tx ≡ true)

  dual-IsAccepted :
      IsSigner c secp
      → (from to asset : String) (amount fee_uplp nonce : ℕ) (reads writes : List String)
      → (main derived : Secret) (tx : Transaction)
      → let m = tx_hash_data from to asset amount fee_uplp nonce reads writes in
        answered from to asset amount fee_uplp nonce reads writes (dual c secp main derived m)
          ≡ ok tx
        → IsAccepted tx
  unfolding message hash_data compute_hash validate_hash parse_canonical
  dual-IsAccepted lawful from to asset amount fee_uplp nonce reads writes main derived tx built =
      let m = tx_hash_data from to asset amount fee_uplp nonce reads writes in
      subst IsAccepted (ok_inj built) λ positive paid.
        let tx' : Transaction = record {
          hash = c.hex_encode (hash_message c m);
          from = from;
          to = to;
          asset = parse_canonical asset;
          amount = amount;
          fee_uplp = fee_uplp;
          nonce = nonce;
          reads = reads;
          writes = writes;
          sig_main = normalize_signature_hex (sign_message c secp main m).signature_compact;
          sig_derived = normalize_signature_hex (sign_message c secp derived m).signature_compact;
          pub_main = some (sign_message c secp main m).pub_key;
          pub_derived = some (sign_message c secp derived m).pub_key;
        } in
        (
          (validate_basic-verify_signatures c tx').1 (
            positive,
            paid,
            (verify_signatures_iff c tx').1 (
              sign_message-verifies_normalized c secp lawful main m,
              sign_message-verifies_normalized c secp lawful derived m,
            ),
          ),
          (string_eq.same_iff (c.hex_encode (hash_message c m)) _).1 refl,
        )

module _ {Value Mnemonic Node Key Secret Signature : Type 0} (j : Json Value)
    (d : RequestDecoder Value) (k : KeyLibraries Mnemonic Node Key) (c : Crypto TransactionHashData)
    (secp : Secp Secret Signature) (params : Value) where
  -- What `sign_transaction` answers, validation accepts: where the amount and the fee asked for are
  -- positive, the transaction of the answer passes `validate_basic`, and its hash is the one that
  -- `validate_hash` computes. The libraries verify what they sign, and write 64 bytes as 128 digits.
  pub sign_transaction-validates :
      IsSigner c secp
      → (tx : Transaction) → sign_transaction_method j d k params secp c ≡ ok tx
      → 0 < tx.amount
      → 0 < tx.fee_uplp
      → (validate_basic c tx ≡ ok tt) × (validate_hash c tx ≡ true)
  unfolding sign_transaction_method
  sign_transaction-validates lawful =
      let asset = or_else (param_opt_str j d params "asset") "PLP" in
      let reads_text = or_else (param_opt_str j d params "reads") "[]" in
      let writes_text = or_else (param_opt_str j d params "writes") "[]" in
      >>=-eq-ok (param_str j d params "from") _ λ from _.
        >>=-eq-ok (param_str j d params "to") _ λ to _.
          >>=-eq-ok (param_u64 j d params "amount") _ λ amount _.
            >>=-eq-ok (param_u64 j d params "fee_uplp") _ λ fee_uplp _.
              >>=-eq-ok (param_u64 j d params "nonce") _ λ nonce _.
                >>=-eq-ok (param_str j d params "mnemonic") _ λ mnemonic _.
                  >>=-eq-ok (param_str j d params "alphanumeric") _ λ part _ tx checked.
                    >>=-eq-ok (require "invalid reads JSON" (d.texts_from_str reads_text)) _
                      (λ reads_vec _.
                        >>=-eq-ok (require "invalid writes JSON" (d.texts_from_str writes_text)) _
                          λ writes_vec _.
                            let reads = collect_set reads_vec in
                            let writes = collect_set writes_vec in
                            let m = tx_hash_data from to asset amount fee_uplp nonce reads writes in
                            >>=-eq-ok (sign_with_both_keys c secp m mnemonic part) _
                              λ signed signed_eq tx built.
                                let (main, derived, e) =
                                  sign_with_both_keys-dual c secp m mnemonic part signed
                                    signed_eq in
                                dual-IsAccepted c secp lawful from to asset amount fee_uplp nonce
                                  reads writes main derived tx
                                  (ap
                                      (answered c secp from to asset amount fee_uplp nonce reads
                                        writes)
                                      e
                                    ∙ built))
                      tx (>>-eq-ok _ _ checked)
