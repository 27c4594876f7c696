-- ===== src/Crypto/Signing.antt =====
-- src/signature.rs and src/signer.rs: signing with a key, and with the two keys of a mnemonic, over
-- the external bip39, hkdf and secp256k1.
pub mod Verifies
use Prim.Native.String.{String, ◌++◌ as text_append, count}
use platarium_core.Base.{
  ℕ, zero, suc, ◌-◌, Option, none, some, List, [], ◌∷◌, Result, ok, err, ◌>>=◌, other,
}
use platarium_core.Data.Bytes.{as_bytes}
use platarium_core.Crypto.{Crypto, hash_message}

-- The libraries: a seed from a mnemonic, 32 bytes of HKDF-SHA256, keys, and signatures.
pub record Secp (Secret Signature : Type 0) : Type 0 where
  pub to_seed : String → String → Option (List ℕ)
  pub hkdf_expand : List ℕ → List ℕ → Option (List ℕ)
  pub secret_from_slice : List ℕ → Option Secret
  pub public_key : Secret → List ℕ
  pub sign_ecdsa : List ℕ → Secret → Signature
  pub serialize_compact : Signature → List ℕ
  pub serialize_der : Signature → List ℕ

pub record SignatureComponents : Type 0 where
  pub r : String
  pub s : String
  pub pub_key : String
  pub der : List ℕ
  pub signature_compact : String

pub record SignatureWithType : Type 0 where
  pub sig_type : String
  pub r : String
  pub s : String
  pub pub_key : String
  pub der : String
  pub signature_compact : String

pub record DualSignature : Type 0 where
  pub hash : String
  pub signatures : List SignatureWithType

abbrev pub take : ℕ → List ℕ → List ℕ
take zero bytes = []
take (suc n) [] = []
take (suc n) (b ∷ bytes) = b ∷ take n bytes

abbrev pub drop : ℕ → List ℕ → List ℕ
drop zero bytes = bytes
drop (suc n) [] = []
drop (suc n) (b ∷ bytes) = drop n bytes

abbrev pub zeros : ℕ → String
zeros zero = ""
zeros (suc n) = text_append "0" (zeros n)

-- `format!("{:0>64}", text)`
abbrev pub pad_64 : String → String
pad_64 text = text_append (zeros (64 - count text)) text

-- `map_err` and `?`
abbrev pub or_fail : {A : Type 0} → String → Option A → Result A
or_fail message none = err (other message)
or_fail message (some a) = ok a

-- It returns the signature as it is.
abbrev pub ensure_low_s : {Signature : Type 0} → Signature → Signature
ensure_low_s signature = signature

module _ {Message Secret Signature : Type 0} (c : Crypto Message) (k : Secp Secret Signature) where
  unfoldable pub sign_message : Secret → Message → SignatureComponents
  unfolding hash_message
  sign_message private_key message =
      let signature = k.sign_ecdsa (hash_message c message) private_key in
      let sig_bytes = k.serialize_compact signature in
      let signature_low_s = ensure_low_s signature in
      record {
        r = pad_64 (c.hex_encode (take 32 sig_bytes));
        s = pad_64 (c.hex_encode (drop 32 sig_bytes));
        pub_key = c.hex_encode (k.public_key private_key);
        der = k.serialize_der signature_low_s;
        signature_compact = text_append (c.hex_encode (k.serialize_compact signature_low_s)) "01";
      }

  abbrev pub generate_master_seed : String → String → Result (List ℕ)
  generate_master_seed mnemonic alphanumeric_part =
      or_fail "BIP39 error" (k.to_seed mnemonic alphanumeric_part)

  abbrev pub derive_hkdf_key : List ℕ → String → Result (List ℕ)
  derive_hkdf_key seed info = or_fail "HKDF expansion failed" (k.hkdf_expand seed (as_bytes info))

  abbrev pub with_type : String → SignatureComponents → SignatureWithType
  with_type sig_type signature = record {
    sig_type = sig_type;
    r = signature.r;
    s = signature.s;
    pub_key = signature.pub_key;
    der = c.hex_encode signature.der;
    signature_compact = signature.signature_compact;
  }

  unfoldable pub sign_with_both_keys : Message → String → String → Result DualSignature
  unfolding sign_message hash_message
  sign_with_both_keys message mnemonic alphanumeric_part = do
    seed ← generate_master_seed mnemonic alphanumeric_part
    let hash_hex = c.hex_encode (hash_message c message)
    main_bytes ← derive_hkdf_key seed (text_append "mainKey-" alphanumeric_part)
    hkdf_bytes ← derive_hkdf_key seed (text_append "hkdfKey-" alphanumeric_part)
    main_key ← or_fail "Invalid main private key" (k.secret_from_slice main_bytes)
    hkdf_key ← or_fail "Invalid HKDF private key" (k.secret_from_slice hkdf_bytes)
    ok (record {
      hash = hash_hex;
      signatures =
          with_type "main" (sign_message main_key message)
          ∷ with_type "hkdf" (sign_message hkdf_key message)
          ∷ [];
    })
