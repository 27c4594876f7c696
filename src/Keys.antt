-- ===== src/Keys.antt =====
-- src/utils.rs, src/mnemonic.rs and src/key_generator.rs: mnemonics, key derivation and the keys of
-- an account, over the external bip39, bip32, hkdf, rand, hex and secp256k1.
pub mod Derivation
pub mod Text
use Prim.Native.Char.{Char}
use Prim.Native.String.{String, ◌∷◌ as str_cons, [] as str_nil, ◌++◌ as text_append, count}
use platarium_core.Base.{
  ℕ, zero, suc, ◌+◌, Bool, true, false, not, ◌&&◌, ◌||◌, Option, none, some, List, [], ◌∷◌, ◌++◌,
  map, ltb, leb, ◌==◌, if◌then◌else◌, is_empty, length, Result, ok, err, ◌>>=◌, ◌>>◌, guard, other,
  panic,
}
use platarium_core.Data.Ord.{◌==◌ as same}
use platarium_core.Data.BigEndian.{bytes_eq}
use platarium_core.Data.Bytes.{as_bytes}
use platarium_core.Data.Parse.{codes}
use platarium_core.Fee.{digits_upto}
use platarium_core.Crypto.Signing.{pad_64, or_fail}

-- The libraries' calls. `hkdf` extracts from a salt and a key and expands an info to 32 bytes.
pub record KeyLibraries (Mnemonic Node Secret : Type 0) : Type 0 where
  pub parse_mnemonic : String → Option Mnemonic
  pub from_entropy : List ℕ → Option Mnemonic
  pub phrase : Mnemonic → String
  pub to_seed : Mnemonic → String → List ℕ
  pub root : List ℕ → Option Node
  pub parse_path : List ℕ → Option (List ℕ)
  pub derive_child : Node → ℕ → Option Node
  pub private_key : Node → List ℕ
  pub hkdf : List ℕ → List ℕ → List ℕ → Option (List ℕ)
  pub secret_from_slice : List ℕ → Option Secret
  pub secret_bytes : Secret → List ℕ
  pub public_key : Secret → List ℕ
  pub hex_encode : List ℕ → String

-- What the random number generator gives: 32 bytes, and the n-th number below a bound.
pub record Random : Type 0 where
  pub entropy : List ℕ
  pub gen_range : ℕ → ℕ → ℕ

abbrev pub hkdf_salt : List ℕ
hkdf_salt = as_bytes "PlatariumSignatureKeySalt2050"

abbrev pub hkdf_info : List ℕ
hkdf_info = as_bytes "Signature Key Derivation"

abbrev pub character_set : String
character_set = "ABCDEFGHIJKLMNOPQRSTUVWXYZ0123456789"

abbrev pub chars : String → List Char
chars str_nil = []
chars (str_cons c s) = c ∷ chars s

abbrev pub unwrap_or_bytes : Option (List ℕ) → List ℕ → List ℕ
unwrap_or_bytes none d = d
unwrap_or_bytes (some b) d = b

-- `to_lowercase` of ASCII, as the numbers of the characters. It is compared with digits only, which
-- no other character becomes.
abbrev pub lowercase : String → List ℕ
lowercase s = map (λ (c : ℕ). if leb b'A' c && leb c b'Z' then c + 32 else c) (codes s)

-- `chars[idx]`, which panics out of range
abbrev pub char_at : List Char → ℕ → Result Char
char_at [] i = err (panic "index out of bounds")
char_at (c ∷ cs) zero = ok c
char_at (c ∷ cs) (suc i) = char_at cs i

-- The round `drawn` of the loop over `0..length`, and the rounds after it.
unfoldable pub draw : Random → ℕ → ℕ → Result String
draw r drawn zero = ok str_nil
draw r drawn (suc left) =
    char_at (chars character_set) (r.gen_range (length (chars character_set)) drawn) >>= λ c.
    draw r (drawn + 1) left >>= λ rest. ok (str_cons c rest)

-- Both files have this function.
unfoldable pub generate_alphanumeric_string : Random → ℕ → Result String
unfolding draw
generate_alphanumeric_string r n =
    if n == 0 then err (other "Length must be greater than 0") else draw r 0 n

unfoldable pub generate_alphanumeric_part : Random → ℕ → Result String
unfolding draw
generate_alphanumeric_part r n =
    if n == 0 then err (other "length must be a positive integer") else draw r 0 n

pub record DerivationPaths : Type 0 where
  pub main_path : List ℕ
  pub signature_path : String

-- A path is the list of the bytes of its text.
pub record KeyPair : Type 0 where
  pub mnemonic : String
  pub alphanumeric_part : String
  pub derivation_paths : DerivationPaths
  pub public_key : String
  pub private_key : String
  pub signature_key : String

pub record KeyGenerator : Type 0 where
  pub seed_index : ℕ
  pub salt : List ℕ
  pub info : List ℕ
  pub custom_path : Option (List ℕ)

abbrev pub max_index : ℕ
max_index = 2_147_483_647

-- `KeyGenerator::new`
unfoldable pub new : ℕ → Option (List ℕ) → Option (List ℕ) → Option (List ℕ) → Result KeyGenerator
new seed_index salt info custom_path =
    if leb max_index seed_index
    then err (other "seedIndex must be in range")
    else ok (record {
      seed_index = seed_index;
      salt = unwrap_or_bytes salt hkdf_salt;
      info = unwrap_or_bytes info hkdf_info;
      custom_path = custom_path;
    })

-- `format!("m/44'/60'/0'/0/{}", seed_index)`: a `u32` has at most 10 digits.
abbrev pub default_path : ℕ → List ℕ
default_path seed_index = as_bytes "m/44'/60'/0'/0/" ++ digits_upto 10 seed_index

module _ {Mnemonic Node Secret : Type 0} (k : KeyLibraries Mnemonic Node Secret) where
  unfoldable pub derive_signature_seed_from_master_seed :
      List ℕ → Option (List ℕ) → Option (List ℕ) → Result (List ℕ)
  derive_signature_seed_from_master_seed master_seed salt info =
      if is_empty master_seed
      then err (other "masterSeed must be non-empty")
      else or_fail "HKDF expansion failed"
          (k.hkdf (unwrap_or_bytes salt hkdf_salt) master_seed (unwrap_or_bytes info hkdf_info))

  unfoldable pub verify_correlation :
      String → String → List ℕ → Option (List ℕ) → Option (List ℕ) → Result Bool
  unfolding derive_signature_seed_from_master_seed
  verify_correlation private_key_hex signature_key_hex master_seed salt info = do
    guard (not (count private_key_hex == 64) || not (count signature_key_hex == 64))
        (other "Invalid format of private keys for verification")
    seed ← derive_signature_seed_from_master_seed master_seed salt info
    ok (same (lowercase (k.hex_encode seed)) (lowercase signature_key_hex))

  unfoldable pub bn_to_hex32 : List ℕ → Result String
  bn_to_hex32 value =
      if ltb 32 (length value)
      then err (other "Value length is greater than 32 bytes")
      else ok (pad_64 (k.hex_encode value))

  unfoldable pub generate_mnemonic : Random → Result (String × String)
  unfolding generate_alphanumeric_string
  generate_mnemonic r = do
    mnemonic ← or_fail "BIP39 error" (k.from_entropy r.entropy)
    alphanumeric_part ← generate_alphanumeric_string r 12
    ok (k.phrase mnemonic, alphanumeric_part)

  unfoldable pub validate_mnemonic : String → Bool
  validate_mnemonic mnemonic = elim (k.parse_mnemonic mnemonic) [ none ↦ false | some m ↦ true ]

  -- The fold over the components of a path
  abbrev pub derive_path : Option Node → List ℕ → Option Node
  derive_path node [] = node
  derive_path none (child ∷ path) = none
  derive_path (some node) (child ∷ path) = derive_path (k.derive_child node child) path

  unfoldable pub build_keys_from_seed :
      KeyGenerator → String → String → ℕ → Option (List ℕ) → Result KeyPair
  unfolding derive_signature_seed_from_master_seed verify_correlation bn_to_hex32
  build_keys_from_seed g mnemonic alphanumeric_part seed_index custom_path = do
    mnemonic_obj ← or_fail "BIP39 error" (k.parse_mnemonic mnemonic)
    let master_seed = k.to_seed mnemonic_obj alphanumeric_part
    root ← or_fail "BIP32 error" (k.root master_seed)
    let main_path = unwrap_or_bytes custom_path (default_path seed_index)
    path ← or_fail "Invalid derivation path" (k.parse_path main_path)
    main_node ← or_fail "BIP32 error" (derive_path (some root) path)
    main_key ← or_fail "Invalid private key" (k.secret_from_slice (k.private_key main_node))
    signature_seed ← derive_signature_seed_from_master_seed master_seed (some g.salt) (some g.info)
    signature_key ← or_fail "Invalid signature key" (k.secret_from_slice signature_seed)
    private_key_hex ← bn_to_hex32 (k.secret_bytes main_key)
    signature_key_hex ← bn_to_hex32 (k.secret_bytes signature_key)
    is_valid ←
        verify_correlation private_key_hex signature_key_hex master_seed (some g.salt) (some g.info)
    guard (not is_valid) (other "Key correlation verification failed")
    ok (record {
      mnemonic = mnemonic;
      alphanumeric_part = alphanumeric_part;
      derivation_paths = record { main_path = main_path; signature_path = "HKDF-derived" };
      public_key = text_append "Px" (k.hex_encode (k.public_key main_key));
      private_key = text_append "PSx" private_key_hex;
      signature_key = text_append "Sx" signature_key_hex;
    })

  unfoldable pub restore_keys :
      KeyGenerator → String → String → ℕ → Option (List ℕ) → Result KeyPair
  unfolding validate_mnemonic build_keys_from_seed
  restore_keys g mnemonic alphanumeric_part seed_index custom_path =
      if not (validate_mnemonic mnemonic)
      then err (other "Provided mnemonic is not valid according to BIP39")
      else build_keys_from_seed g mnemonic alphanumeric_part seed_index custom_path

  unfoldable pub generate_keys : Random → KeyGenerator → Result KeyPair
  unfolding generate_mnemonic validate_mnemonic restore_keys
  generate_keys r g = do
    generated ← generate_mnemonic r
    guard (not (validate_mnemonic generated.0))
        (other "Generated mnemonic is not valid according to BIP39")
    restore_keys g generated.0 generated.1 g.seed_index g.custom_path
