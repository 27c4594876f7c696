-- ===== src/Tests/Accounts.antt =====
-- Keys at libraries whose seeds, secrets and expansions are 32 zeros.
use Prim.Native.String.{String, ◌∷◌ as str_cons, [] as str_nil, count}
use text.Mathlib.TextLemmas.{length-cons, length-nil}
use platarium_core.Base.{
  ℕ, ◌+◌, ◌*◌, ◌≡◌, refl, sym, ap, none, some, List, [], ◌∷◌, length, arith, ok, if◌then◌else◌,
  some_inj, Bool-cases, inl, inr,
}
use platarium_core.Data.Ord.{◌==◌}
use platarium_core.Data.BigEndian.{bytes_eq}
use platarium_core.Keys.{
  KeyLibraries, KeyGenerator, KeyPair, Random, hkdf_salt, hkdf_info, build_keys_from_seed,
  restore_keys, generate_keys, default_path,
}
use platarium_core.Keys.Derivation.{
  IsLawful, derived_keys, build_keys_from_seed_derived, generate_keys-restore_keys,
}

abbrev pub zeros_32 : List ℕ
zeros_32 =
    0 ∷ 0 ∷ 0 ∷ 0 ∷ 0 ∷ 0 ∷ 0 ∷ 0 ∷ 0 ∷ 0 ∷ 0 ∷ 0 ∷ 0 ∷ 0 ∷ 0 ∷ 0 ∷ 0 ∷ 0 ∷ 0 ∷ 0 ∷ 0 ∷ 0 ∷ 0 ∷ 0
    ∷ 0 ∷ 0 ∷ 0 ∷ 0 ∷ 0 ∷ 0 ∷ 0 ∷ 0 ∷ []

-- Two digits for each byte
abbrev pub hex : List ℕ → String
hex [] = str_nil
hex (b ∷ bytes) = str_cons "0" (str_cons "0" (hex bytes))

hex-length : (bytes : List ℕ) → count (hex bytes) ≡ 2 * length bytes
hex-length [] = length-nil
hex-length (b ∷ bytes) = omega (
  arith,
  length-cons "0" (str_cons "0" (hex bytes)),
  length-cons "0" (hex bytes),
  hex-length bytes,
)

-- Mnemonics are texts, and the only secret is 0.
abbrev pub key_libraries : KeyLibraries String ℕ ℕ
key_libraries = record {
  parse_mnemonic = λ words. some words;
  from_entropy = λ entropy. some "abandon ability";
  phrase = λ m. m;
  to_seed = λ m part. zeros_32;
  root = λ seed. some 0;
  parse_path = λ path. some (0 ∷ []);
  derive_child = λ node child. some (node + child);
  private_key = λ node. zeros_32;
  hkdf = λ salt key info. some zeros_32;
  secret_from_slice = λ bytes. if bytes == zeros_32 then some 0 else none;
  secret_bytes = λ secret. zeros_32;
  public_key = λ secret. 2 ∷ [];
  hex_encode = hex;
}

only_zeros :
    (bytes : List ℕ) {secret : ℕ}
    → key_libraries.secret_from_slice bytes ≡ some secret
    → zeros_32 ≡ bytes
only_zeros bytes h = elim (Bool-cases (bytes == zeros_32)) [
  | inl e ↦ sym ((bytes_eq.same_iff bytes zeros_32).0 e)
  | inr f ↦ absurd (ground (arith, h, f))
]

key_libraries-IsLawful : IsLawful key_libraries
key_libraries-IsLawful = record {
  seed_nonempty = λ m part. refl;
  hkdf_length = λ salt key info {seed} h. ap length (sym (some_inj h));
  secret_roundtrip = λ bytes {secret} h. only_zeros bytes h;
  secret_length = λ secret. refl;
  hex_length = hex-length;
}

abbrev generator : KeyGenerator
generator = record { seed_index = 7; salt = hkdf_salt; info = hkdf_info; custom_path = none }

abbrev pub random : Random
random = record { entropy = []; gen_range = λ bound i. 0 }

build_keys_from_seed_derived_example :
    build_keys_from_seed key_libraries generator "abandon" "AAAA" 7 none
    ≡ derived_keys key_libraries generator "abandon" "AAAA" 7 none
build_keys_from_seed_derived_example =
    build_keys_from_seed_derived key_libraries key_libraries-IsLawful generator "abandon" "AAAA" 7
      none

abbrev keys : KeyPair
keys = record {
  mnemonic = "abandon ability";
  alphanumeric_part = "AAAAAAAAAAAA";
  derivation_paths = record { main_path = default_path 7; signature_path = "HKDF-derived" };
  public_key = "Px00";
  private_key = "PSx0000000000000000000000000000000000000000000000000000000000000000";
  signature_key = "Sx0000000000000000000000000000000000000000000000000000000000000000";
}

keys_test : generate_keys key_libraries random generator ≡ ok keys
unfolding generate_keys
keys_test = refl

generate_keys-restore_keys_example :
    restore_keys key_libraries generator "abandon ability" "AAAAAAAAAAAA" 7 none ≡ ok keys
generate_keys-restore_keys_example =
    generate_keys-restore_keys key_libraries random generator generator keys keys_test refl refl
