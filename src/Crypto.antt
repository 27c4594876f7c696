-- ===== src/Crypto.antt =====
-- src/signature.rs: hashing and verifying messages, over the external serde_json, sha2, hex and
-- secp256k1, which the program only calls.
pub mod Signing
use Prim.Native.Char.{Char, code}
use Prim.Native.String.{String, ◌∷◌ as str_cons, [] as str_nil, count}
use platarium_core.Base.{
  ℕ, zero, suc, Bool, ◌&&◌, ◌||◌, List, ◌++◌, leb, if◌then◌else◌, Result, ok, err, other, ◌>>=◌,
  Option, none, some, length, ◌==◌,
}
use platarium_core.Data.Bytes.{as_bytes}

-- The libraries, for messages of one type. A signature that is parsed is its compact form of 64
-- bytes, and a public key its bytes.
pub record Crypto (Message : Type 0) : Type 0 where
  pub to_json : Message → String
  pub sha256 : List ℕ → List ℕ
  pub hex_encode : List ℕ → String
  pub hex_decode : String → Option (List ℕ)
  pub from_digest_slice : List ℕ → Option (List ℕ)
  pub from_compact : List ℕ → Option (List ℕ)
  pub from_der : List ℕ → Option (List ℕ)
  pub from_slice : List ℕ → Option (List ℕ)
  pub verify_ecdsa : List ℕ → List ℕ → List ℕ → Bool

-- `char::is_ascii_hexdigit`
abbrev pub is_ascii_hexdigit : Char → Bool
is_ascii_hexdigit c =
    leb b'0' (code c) && leb (code c) b'9'
    || (leb b'a' (code c) && leb (code c) b'f' || leb b'A' (code c) && leb (code c) b'F')

unfoldable pub keep_hex : String → String
keep_hex str_nil = str_nil
keep_hex (str_cons c s) = if is_ascii_hexdigit c then str_cons c (keep_hex s) else keep_hex s

abbrev take_chars : ℕ → String → String
take_chars zero s = str_nil
take_chars (suc n) str_nil = str_nil
take_chars (suc n) (str_cons c s) = str_cons c (take_chars n s)

-- The digits are ASCII, so the length in bytes is the number of characters.
unfoldable pub normalize_signature_hex : String → String
unfolding keep_hex
normalize_signature_hex signature_hex =
    let hex = keep_hex signature_hex in if leb 128 (count hex) then take_chars 128 hex else hex

abbrev pub or_signature_error : Option (List ℕ) → String → Result (List ℕ)
or_signature_error none message = err (other message)
or_signature_error (some bytes) message = ok bytes

module _ {Message : Type 0} (c : Crypto Message) where
  unfoldable pub hash_message : Message → List ℕ
  hash_message message = c.sha256 (as_bytes "PlatariumSignature:" ++ as_bytes (c.to_json message))

  -- 64 bytes are a compact signature, any others a DER one.
  abbrev pub parse_signature : List ℕ → Result (List ℕ)
  parse_signature bytes =
      if length bytes == 64
      then or_signature_error (c.from_compact bytes) "Invalid compact signature"
      else or_signature_error (c.from_der bytes) "Invalid DER signature"

  unfoldable pub verify_signature : Message → String → String → Result Bool
  unfolding hash_message normalize_signature_hex
  verify_signature message signature_hex pub_key_hex = do
    msg ← or_signature_error (c.from_digest_slice (hash_message message)) "Invalid message hash"
    sig_bytes ←
        or_signature_error (c.hex_decode (normalize_signature_hex signature_hex))
          "Invalid signature hex"
    signature ← parse_signature sig_bytes
    pub_key_bytes ← or_signature_error (c.hex_decode pub_key_hex) "Invalid public key hex"
    pub_key ← or_signature_error (c.from_slice pub_key_bytes) "Invalid public key"
    ok (c.verify_ecdsa msg signature pub_key)
