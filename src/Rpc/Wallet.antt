-- ===== src/Rpc/Wallet.antt =====
-- src/core/core_rpc.rs: the methods that make keys and sign.
pub mod Signed
use Prim.Native.String.{String}
use platarium_core.Base.{
  ℕ, ◌%◌, ◌^◌, not, Bool, Option, none, some, List, [], ◌∷◌, Result, ok, err, ◌>>=◌, ◌>>◌, guard,
  other, panic,
}
use platarium_core.Data.Bytes.{as_bytes}
use platarium_core.Data.Set.{collect_set}
use platarium_core.Data.Ord.{string_ord}
use platarium_core.Data.Sort.{sort_by}
use platarium_core.Asset.{as_canonical}
use platarium_core.Json.{Json}
use platarium_core.Crypto.{Crypto, normalize_signature_hex, verify_signature}
use platarium_core.Crypto.Signing.{Secp, DualSignature, SignatureWithType, sign_with_both_keys}
use platarium_core.Keys.{
  KeyLibraries, KeyPair, Random, validate_mnemonic, generate_alphanumeric_part, restore_keys, new,
}
use platarium_core.Transaction.{Transaction, TransactionHashData}
use platarium_core.Transaction.Gateway.{parse_canonical, require}
use platarium_core.Rpc.Params.{RequestDecoder, param_str, param_opt_str, param_u64, and_then}

-- `unwrap_or`, `unwrap_or_else` and `unwrap_or_default`
abbrev pub or_else : Option String → String → String
or_else none d = d
or_else (some s) d = s

abbrev pub ok_or : {A : Type 0} → Result A → A → A
ok_or (err e) d = d
ok_or (ok a) d = a

abbrev pub path_bytes : Option String → Option (List ℕ)
path_bytes none = none
path_bytes (some path) = some (as_bytes path)

-- `signatures[0]` and `signatures[1]`, which panic where there are fewer
abbrev pub both : List SignatureWithType → Result (SignatureWithType × SignatureWithType)
both [] = err (panic "index out of bounds")
both (main ∷ []) = err (panic "index out of bounds")
both (main ∷ derived ∷ others) = ok (main, derived)

-- What is signed: `TxHashData`, with the fields of `TransactionHashData`
abbrev pub tx_hash_data :
    String → String → String → ℕ → ℕ → ℕ → List String → List String → TransactionHashData
tx_hash_data from to asset amount fee_uplp nonce reads writes = record {
  from = from;
  to = to;
  asset = as_canonical (parse_canonical asset);
  amount = amount;
  fee_uplp = fee_uplp;
  nonce = nonce;
  reads = sort_by (λ a. a) reads;
  writes = sort_by (λ a. a) writes;
}

module _ {Value Mnemonic Node Secret : Type 0} (j : Json Value) (d : RequestDecoder Value)
    (k : KeyLibraries Mnemonic Node Secret) (params : Value) where
  abbrev pub check_mnemonic : String → Result (Unit {0})
  check_mnemonic mnemonic =
      guard (not (validate_mnemonic k mnemonic)) (other "Invalid mnemonic phrase")

  unfoldable pub generate_keys_method : Random → Result KeyPair
  unfolding param_str param_u64 generate_alphanumeric_part new restore_keys validate_mnemonic
  generate_keys_method random = do
    mnemonic ← param_str j d params "mnemonic"
    check_mnemonic mnemonic
    let part =
        or_else (param_opt_str j d params "alphanumeric")
          (ok_or (generate_alphanumeric_part random 12) "")
    let seed_index = ok_or (param_u64 j d params "seed_index") 0 % 2 ^ 32
    let path = path_bytes (param_opt_str j d params "path")
    key_gen ← new seed_index none none path
    restore_keys k key_gen mnemonic part seed_index path

  unfoldable pub verify_signature_method : Crypto Value → Result Bool
  unfolding param_str verify_signature
  verify_signature_method c = do
    message_str ← param_str j d params "message"
    signature ← param_str j d params "signature"
    pubkey ← param_str j d params "pubkey"
    message ← require "Invalid JSON message" (j.from_str message_str)
    verify_signature c message signature pubkey

  module _ {Key Signature : Type 0} (secp : Secp Key Signature) where
    unfoldable pub sign_message_method : Crypto Value → Result DualSignature
    unfolding param_str sign_with_both_keys validate_mnemonic
    sign_message_method c = do
      message_str ← param_str j d params "message"
      mnemonic ← param_str j d params "mnemonic"
      alphanumeric ← param_str j d params "alphanumeric"
      check_mnemonic mnemonic
      message ← require "Invalid JSON message" (j.from_str message_str)
      sign_with_both_keys c secp message mnemonic alphanumeric

    -- The answer has the fields of a transaction.
    unfoldable pub sign_transaction_method : Crypto TransactionHashData → Result Transaction
    unfolding param_str param_u64 parse_canonical sign_with_both_keys normalize_signature_hex
        validate_mnemonic
    sign_transaction_method c = do
      from ← param_str j d params "from"
      to ← param_str j d params "to"
      let asset = or_else (param_opt_str j d params "asset") "PLP"
      amount ← param_u64 j d params "amount"
      fee_uplp ← param_u64 j d params "fee_uplp"
      nonce ← param_u64 j d params "nonce"
      let reads_text = or_else (param_opt_str j d params "reads") "[]"
      let writes_text = or_else (param_opt_str j d params "writes") "[]"
      mnemonic ← param_str j d params "mnemonic"
      alphanumeric ← param_str j d params "alphanumeric"
      check_mnemonic mnemonic
      reads_vec ← require "invalid reads JSON" (d.texts_from_str reads_text)
      writes_vec ← require "invalid writes JSON" (d.texts_from_str writes_text)
      let reads = collect_set reads_vec
      let writes = collect_set writes_vec
      signed ←
          sign_with_both_keys c secp (tx_hash_data from to asset amount fee_uplp nonce reads writes)
            mnemonic alphanumeric
      pair ← both signed.signatures
      ok (record {
        hash = signed.hash;
        from = from;
        to = to;
        asset = parse_canonical asset;
        amount = amount;
        fee_uplp = fee_uplp;
        nonce = nonce;
        reads = reads;
        writes = writes;
        sig_main = normalize_signature_hex pair.0.signature_compact;
        sig_derived = normalize_signature_hex pair.1.signature_compact;
        pub_main = some pair.0.pub_key;
        pub_derived = some pair.1.pub_key;
      })
