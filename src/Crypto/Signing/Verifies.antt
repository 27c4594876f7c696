-- ===== src/Crypto/Signing/Verifies.antt =====
-- src/signature.rs: what was signed is verified, the suffix of a compact signature notwithstanding.
use Prim.Native.String.{String, ◌∷◌ as str_cons, [] as str_nil, ◌++◌ as text_append, count}
use Prim.Native.String.append
use text.Mathlib.TextLemmas.{length-cons, length-nil, length-append, append-nil}
use platarium_core.Base.{
  ℕ, zero, suc, ◌≡◌, ◌∙◌, refl, ap, sym, Bool, true, ◌&&◌, List, arith, leb, ok, some, length, ◌==◌,
  ◌++◌,
}
use platarium_core.Data.Bytes.{as_bytes}
use platarium_core.Crypto.{
  Crypto, is_ascii_hexdigit, keep_hex, take_chars, normalize_signature_hex, hash_message,
  verify_signature,
}
use platarium_core.Crypto.Signing.{Secp, sign_message}

abbrev pub is_hex : String → Bool
is_hex str_nil = true
is_hex (str_cons c s) = is_ascii_hexdigit c && is_hex s

keep_hex-append :
    (h t : String) → is_hex h ≡ true → keep_hex (text_append h t) ≡ text_append h (keep_hex t)
unfolding keep_hex
keep_hex-append str_nil t p = rw (append.nil t, append.nil (keep_hex t)) refl
keep_hex-append (str_cons c h) t p =
    rw (append.cons c h t, append.cons c h (keep_hex t)) (ground (arith, p, keep_hex-append h t))

take_chars-append : (n : ℕ) (h t : String) → count h ≡ n → take_chars n (text_append h t) ≡ h
take_chars-append zero str_nil t p = refl
take_chars-append zero (str_cons c h) t p = absurd (omega (arith, p, length-cons c h))
take_chars-append (suc n) str_nil t p = absurd (omega (arith, p, length-nil))
take_chars-append (suc n) (str_cons c h) t p =
    rw (append.cons c h t)
      (ap (str_cons c) (take_chars-append n h t (omega (arith, p, length-cons c h))))

-- 128 hexadecimal digits survive the suffix that signing adds.
normalize_signature_hex-suffix :
    (h : String)
    → is_hex h ≡ true
    → count h ≡ 128
    → normalize_signature_hex (text_append h "01") ≡ h
unfolding normalize_signature_hex keep_hex
normalize_signature_hex-suffix h p q =
    let kept : keep_hex (text_append h "01") ≡ text_append h "01" = keep_hex-append h "01" p in
    let long : leb 128 (count (text_append h "01")) ≡ true =
      ground (arith, length-append h "01", q) in
    rw (kept, long) (take_chars-append 128 h "01" q)

-- and so they do where they stand alone.
pub normalize_signature_hex-digits :
    (h : String) → is_hex h ≡ true → count h ≡ 128 → normalize_signature_hex h ≡ h
unfolding normalize_signature_hex keep_hex
normalize_signature_hex-digits h p q =
    let kept : keep_hex h ≡ h =
      ap keep_hex (sym (append-nil h)) ∙ keep_hex-append h str_nil p ∙ append-nil h in
    let long : leb 128 (count h) ≡ true = ground (arith, q) in
    rw (kept, long) (ap (take_chars 128) (sym (append-nil h)) ∙ take_chars-append 128 h str_nil q)

-- What the libraries document: a digest of SHA-256 is a message, the bytes of a signature and
-- of a public key are decoded from their digits, a signature is parsed from its compact form, which has 64 bytes or 128 digits, and a public
-- key from its bytes, and the signature verifies for the public key of the secret that signed.
pub record IsSigner {Message Secret Signature : Type 0} (c : Crypto Message)
    (k : Secp Secret Signature) : Type 0 where
  pub compact_hex :
      (digest : List ℕ) (secret : Secret)
      → is_hex (c.hex_encode (k.serialize_compact (k.sign_ecdsa digest secret))) ≡ true
  pub compact_length :
      (digest : List ℕ) (secret : Secret)
      → count (c.hex_encode (k.serialize_compact (k.sign_ecdsa digest secret))) ≡ 128
  pub digest : (bytes : List ℕ) → c.from_digest_slice (c.sha256 bytes) ≡ some (c.sha256 bytes)
  pub compact_decode :
      (digest : List ℕ) (secret : Secret)
      → let bytes = k.serialize_compact (k.sign_ecdsa digest secret) in
        c.hex_decode (c.hex_encode bytes) ≡ some bytes
  pub public_key_decode :
      (secret : Secret)
      → c.hex_decode (c.hex_encode (k.public_key secret)) ≡ some (k.public_key secret)
  pub compact_bytes :
      (digest : List ℕ) (secret : Secret)
      → length (k.serialize_compact (k.sign_ecdsa digest secret)) ≡ 64
  pub compact :
      (digest : List ℕ) (secret : Secret)
      → let bytes = k.serialize_compact (k.sign_ecdsa digest secret) in
        c.from_compact bytes ≡ some bytes
  pub public_key :
      (secret : Secret) → c.from_slice (k.public_key secret) ≡ some (k.public_key secret)
  pub signed :
      (digest : List ℕ) (secret : Secret)
      → c.verify_ecdsa digest
          (k.serialize_compact (k.sign_ecdsa digest secret))
          (k.public_key secret)
        ≡ true

module _ {Message Secret Signature : Type 0} (c : Crypto Message) (k : Secp Secret Signature)
    (lawful : IsSigner c k) (secret : Secret) (message : Message) where
  abbrev compact_form : List ℕ
  compact_form = k.serialize_compact (k.sign_ecdsa (hash_message c message) secret)

  -- A text that is cut to the digits of the compact form is verified.
  verify_signature-cut :
      (text : String)
      → normalize_signature_hex text ≡ c.hex_encode compact_form
      → verify_signature c message text (c.hex_encode (k.public_key secret)) ≡ ok true
  unfolding verify_signature hash_message
  verify_signature-cut text cut =
      let digest = hash_message c message in
      let long : (length compact_form == 64) ≡ true =
        ground (arith, lawful.compact_bytes digest secret) in
      rw
        (
          verify_signature,
          lawful.digest (as_bytes "PlatariumSignature:" ++ as_bytes (c.to_json message)),
          cut,
          lawful.compact_decode digest secret,
          long,
          lawful.compact digest secret,
          lawful.public_key_decode secret,
          lawful.public_key secret,
          lawful.signed digest secret,
        )
        refl

  suffix_cut :
      normalize_signature_hex (text_append (c.hex_encode compact_form) "01")
      ≡ c.hex_encode compact_form
  suffix_cut =
      let digest = hash_message c message in
      normalize_signature_hex-suffix (c.hex_encode compact_form) (lawful.compact_hex digest secret)
        (lawful.compact_length digest secret)

  pub sign_message-verifies :
      let signature = sign_message c k secret message in
      verify_signature c message signature.signature_compact signature.pub_key ≡ ok true
  unfolding sign_message
  sign_message-verifies =
      verify_signature-cut (text_append (c.hex_encode compact_form) "01") suffix_cut

  -- It is verified too after the suffix is cut, as in a transaction.
  pub sign_message-verifies_normalized :
      let signature = sign_message c k secret message in
      verify_signature c message
        (normalize_signature_hex signature.signature_compact)
        signature.pub_key
      ≡ ok true
  unfolding sign_message
  sign_message-verifies_normalized =
      let digest = hash_message c message in
      let whole =
        normalize_signature_hex-digits (c.hex_encode compact_form)
          (lawful.compact_hex digest secret) (lawful.compact_length digest secret) in
      verify_signature-cut (normalize_signature_hex (text_append (c.hex_encode compact_form) "01"))
        (ap normalize_signature_hex suffix_cut ∙ whole)
