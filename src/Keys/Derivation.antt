-- ===== src/Keys/Derivation.antt =====
-- src/key_generator.rs: when keys are derived from a mnemonic, and what they are.
use Prim.Native.String.{String, ◌++◌ as text_append, count}
use Prim.Native.String.append
use platarium_core.Base.{
  ℕ, ◌-◌, ◌*◌, ◌≡◌, refl, ap, sym, ◌∙◌, false, Option, none, some, List, ltb, length, is_empty,
  Result, ok, ◌>>=◌, arith, Bool-cases, inl, inr, >>=-eq-ok, >>-eq-ok,
}
use platarium_core.Data.BigEndian.{bytes_eq}
use platarium_core.Crypto.Signing.{or_fail}
use platarium_core.Keys.{
  KeyLibraries, KeyPair, KeyGenerator, Random, unwrap_or_bytes, default_path, lowercase,
  derive_signature_seed_from_master_seed, verify_correlation, bn_to_hex32, derive_path,
  build_keys_from_seed, restore_keys, generate_keys, generate_mnemonic, validate_mnemonic,
}

-- What the libraries document: a seed is not empty, HKDF expands to as many bytes as are asked for,
-- a secret key is its 32 bytes, and a byte has two digits.
pub record IsLawful {Mnemonic Node Secret : Type 0} (k : KeyLibraries Mnemonic Node Secret)
    : Type 0 where
  pub seed_nonempty : (m : Mnemonic) (text : String) → is_empty (k.to_seed m text) ≡ false
  pub hkdf_length :
      (salt key info : List ℕ) {seed : List ℕ} → k.hkdf salt key info ≡ some seed → length seed ≡ 32
  pub secret_roundtrip :
      (bytes : List ℕ) {secret : Secret}
      → k.secret_from_slice bytes ≡ some secret
      → k.secret_bytes secret ≡ bytes
  pub secret_length : (secret : Secret) → length (k.secret_bytes secret) ≡ 32
  pub hex_length : (bytes : List ℕ) → count (k.hex_encode bytes) ≡ 2 * length bytes

-- `?` on the same call, where what follows agrees on what the call returned
or_fail-cong :
    {A B : Type 0} (message : String) (o : Option A) {f g : A → Result B}
    → ((a : A) → o ≡ some a → f a ≡ g a)
    → (or_fail message o >>= f) ≡ (or_fail message o >>= g)
or_fail-cong message none h = refl
or_fail-cong message (some a) h = h a refl

module _ {Mnemonic Node Secret : Type 0} (k : KeyLibraries Mnemonic Node Secret) where
  -- What a mnemonic means: its seed's key at the path, and the key that HKDF gives for the seed,
  -- with no check after that.
  abbrev pub derived_keys : KeyGenerator → String → String → ℕ → Option (List ℕ) → Result KeyPair
  derived_keys g mnemonic alphanumeric_part seed_index custom_path = do
    mnemonic_obj ← or_fail "BIP39 error" (k.parse_mnemonic mnemonic)
    let master_seed = k.to_seed mnemonic_obj alphanumeric_part
    let main_path = unwrap_or_bytes custom_path (default_path seed_index)
    root ← or_fail "BIP32 error" (k.root master_seed)
    path ← or_fail "Invalid derivation path" (k.parse_path main_path)
    main_node ← or_fail "BIP32 error" (derive_path k (some root) path)
    main_key ← or_fail "Invalid private key" (k.secret_from_slice (k.private_key main_node))
    signature_seed ← or_fail "HKDF expansion failed" (k.hkdf g.salt master_seed g.info)
    signature_key ← or_fail "Invalid signature key" (k.secret_from_slice signature_seed)
    ok (record {
      mnemonic = mnemonic;
      alphanumeric_part = alphanumeric_part;
      derivation_paths = record { main_path = main_path; signature_path = "HKDF-derived" };
      public_key = text_append "Px" (k.hex_encode (k.public_key main_key));
      private_key = text_append "PSx" (k.hex_encode (k.private_key main_node));
      signature_key = text_append "Sx" (k.hex_encode signature_seed);
    })

module _ {Mnemonic Node Secret : Type 0} (k : KeyLibraries Mnemonic Node Secret)
    (lawful : IsLawful k) where
  bn_to_hex32_full :
      (value : List ℕ) → length value ≡ 32 → bn_to_hex32 k value ≡ ok (k.hex_encode value)
  unfolding bn_to_hex32
  bn_to_hex32_full value h =
      let short : ltb 32 (length value) ≡ false = ground (arith, h) in
      let padding : 64 - count (k.hex_encode value) ≡ 0 =
        omega (arith, h, lawful.hex_length value) in
      rw (short, padding, append.nil (k.hex_encode value)) refl

  secret_hex :
      (bytes : List ℕ) {secret : Secret}
      → k.secret_from_slice bytes ≡ some secret
      → (bn_to_hex32 k (k.secret_bytes secret) ≡ ok (k.hex_encode bytes))
        × (count (k.hex_encode bytes) ≡ 64)
  secret_hex bytes {secret} h =
      let same_bytes : k.secret_bytes secret ≡ bytes = lawful.secret_roundtrip bytes h in
      let full : length bytes ≡ 32 = ap length (sym same_bytes) ∙ lawful.secret_length secret in
      (
        ap (bn_to_hex32 k) same_bytes ∙ bn_to_hex32_full bytes full,
        omega (arith, full, lawful.hex_length bytes),
      )

  -- The keys of a mnemonic are those that its seed derives, and an error is one of a library: the
  -- checks of the program itself, of lengths and of the correlation of the two keys, never fail. A
  -- seed is not empty, HKDF gives 32 bytes, a secret key is its 32 bytes, and a byte has two digits.
  pub build_keys_from_seed_derived :
      (g : KeyGenerator) (mnemonic part : String) (seed_index : ℕ) (custom_path : Option (List ℕ))
      → build_keys_from_seed k g mnemonic part seed_index custom_path
        ≡ derived_keys k g mnemonic part seed_index custom_path
  unfolding build_keys_from_seed derive_signature_seed_from_master_seed
  build_keys_from_seed_derived g mnemonic part seed_index custom_path =
      or_fail-cong _ (k.parse_mnemonic mnemonic) λ m _.
        let master = k.to_seed m part in
        let full : is_empty master ≡ false = lawful.seed_nonempty m part in
        or_fail-cong _ (k.root master) λ root _.
          or_fail-cong _ (k.parse_path (unwrap_or_bytes custom_path (default_path seed_index)))
            λ path _. or_fail-cong _ (derive_path k (some root) path) λ node _.
              or_fail-cong _ (k.secret_from_slice (k.private_key node)) λ main main_eq. rw full (
                or_fail-cong _ (k.hkdf g.salt master g.info) λ seed seed_eq.
                  or_fail-cong _ (k.secret_from_slice seed) λ secret secret_eq.
                    let private = secret_hex (k.private_key node) main_eq in
                    let signature = secret_hex seed secret_eq in
                    rw
                      (
                        private.0,
                        signature.0,
                        private.1,
                        signature.1,
                        seed_eq,
                        (bytes_eq.same_iff (lowercase (k.hex_encode seed)) _).1 refl,
                      )
                      refl)

module _ {Mnemonic Node Secret : Type 0} (k : KeyLibraries Mnemonic Node Secret) where
  -- Keys name the mnemonic and the text that they come from.
  build_keys_from_seed-names :
      (g : KeyGenerator) (mnemonic part : String) (seed_index : ℕ) (custom_path : Option (List ℕ))
      → (keys : KeyPair) → build_keys_from_seed k g mnemonic part seed_index custom_path ≡ ok keys
      → (keys.mnemonic ≡ mnemonic) × (keys.alphanumeric_part ≡ part)
  unfolding build_keys_from_seed
  build_keys_from_seed-names g mnemonic part seed_index custom_path =
      >>=-eq-ok (or_fail "BIP39 error" (k.parse_mnemonic mnemonic)) _ λ m _.
        let master = k.to_seed m part in
        let main_path = unwrap_or_bytes custom_path (default_path seed_index) in
        let derived = derive_signature_seed_from_master_seed k master (some g.salt) (some g.info) in
        >>=-eq-ok (or_fail "BIP32 error" (k.root master)) _ λ root _.
          >>=-eq-ok (or_fail "Invalid derivation path" (k.parse_path main_path)) _ λ path _.
            >>=-eq-ok (or_fail "BIP32 error" (derive_path k (some root) path)) _ λ node _.
              >>=-eq-ok (or_fail "Invalid private key" (k.secret_from_slice (k.private_key node))) _
                λ main _. >>=-eq-ok derived _ λ seed _.
                  >>=-eq-ok (or_fail "Invalid signature key" (k.secret_from_slice seed)) _
                    λ secret _. >>=-eq-ok (bn_to_hex32 k (k.secret_bytes main)) _ λ private _.
                      >>=-eq-ok (bn_to_hex32 k (k.secret_bytes secret)) _ λ signature _.
                        >>=-eq-ok
                          (verify_correlation k private signature master (some g.salt)
                            (some g.info))
                          _ λ valid _ keys built. ground (arith, built)

  restore_keys-names :
      (g : KeyGenerator) (mnemonic part : String) (seed_index : ℕ) (custom_path : Option (List ℕ))
      → (keys : KeyPair) → restore_keys k g mnemonic part seed_index custom_path ≡ ok keys
      → (keys.mnemonic ≡ mnemonic) × (keys.alphanumeric_part ≡ part)
  unfolding restore_keys
  restore_keys-names g mnemonic part seed_index custom_path keys h =
      elim (Bool-cases (validate_mnemonic k mnemonic)) [
        | inl fine ↦
            build_keys_from_seed-names g mnemonic part seed_index custom_path keys (rw fine at h)
        | inr bad ↦ absurd (ground (arith, h, bad))
      ]

  restore_keys-generator :
      (g h : KeyGenerator) (mnemonic part : String) (seed_index : ℕ)
      → (custom_path : Option (List ℕ)) → h.salt ≡ g.salt
      → h.info ≡ g.info
      → restore_keys k h mnemonic part seed_index custom_path
        ≡ restore_keys k g mnemonic part seed_index custom_path
  unfolding restore_keys
  restore_keys-generator g h mnemonic part seed_index custom_path salt info = rw (salt, info) refl

  generate_keys-restores :
      (r : Random) (g : KeyGenerator) (keys : KeyPair)
      → generate_keys k r g ≡ ok keys
      → (words : String × String) × (restore_keys k g words.0 words.1 g.seed_index g.custom_path
          ≡ ok keys)
  unfolding generate_keys
  generate_keys-restores r g =
      >>=-eq-ok (generate_mnemonic k r) _ λ words _ keys built. (words, >>-eq-ok _ _ built)

  -- Keys that were generated are restored from their mnemonic and their alphanumeric part, at the
  -- generator's index and path, by every generator with the same salt and info.
  pub generate_keys-restore_keys :
      (r : Random) (g h : KeyGenerator) (keys : KeyPair)
      → generate_keys k r g ≡ ok keys
      → h.salt ≡ g.salt
      → h.info ≡ g.info
      → restore_keys k h keys.mnemonic keys.alphanumeric_part g.seed_index g.custom_path ≡ ok keys
  generate_keys-restore_keys r g h keys generated salt info =
      let (words, built) = generate_keys-restores r g keys generated in
      let names = restore_keys-names g words.0 words.1 g.seed_index g.custom_path keys built in
      ap (λ m. restore_keys k h m keys.alphanumeric_part g.seed_index g.custom_path) names.0
      ∙ ap (λ part. restore_keys k h words.0 part g.seed_index g.custom_path) names.1
      ∙ restore_keys-generator g h words.0 words.1 g.seed_index g.custom_path salt info
      ∙ built
