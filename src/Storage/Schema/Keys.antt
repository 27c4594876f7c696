-- ===== src/Storage/Schema/Keys.antt =====
-- src/storage/schema.rs: heights survive their encoding, and keys of different kinds differ.
use platarium_core.Base.{some_inj, ℕ, ◌<◌, ◌≡◌, sym, ap, ◌∙◌, some, [], ◌∷◌, u64_mod, arith}
use platarium_core.Data.BigEndian.{from_be_bytes-to_be_bytes, length-to_be_bytes}
use platarium_core.Storage.{Bytes}
use platarium_core.Storage.Schema.{encode_u64, decode_u64, key_block, key_state_root}

-- A 64-bit number is read back from its eight bytes.
pub decode_u64-encode_u64 : (n : ℕ) → n < u64_mod → decode_u64 (encode_u64 n) ≡ some n
unfolding decode_u64 encode_u64
decode_u64-encode_u64 n h =
    rw (length-to_be_bytes 8 n)
      (ap some (from_be_bytes-to_be_bytes 8 0 n (omega arith) ∙ omega arith))

tail_bytes : Bytes → Bytes
tail_bytes [] = []
tail_bytes (b ∷ bs) = bs

pub key_block_inj : (m n : ℕ) → m < u64_mod → n < u64_mod → key_block m ≡ key_block n → m ≡ n
unfolding key_block tail_bytes encode_u64
key_block_inj m n hm hn h =
    let same_bytes : encode_u64 m ≡ encode_u64 n = ap (λ k. tail_bytes (tail_bytes k)) h in
    some_inj
      (sym (decode_u64-encode_u64 m hm) ∙ ap decode_u64 same_bytes ∙ decode_u64-encode_u64 n hn)

pub key_state_root_inj :
    (m n : ℕ) → m < u64_mod → n < u64_mod → key_state_root m ≡ key_state_root n → m ≡ n
unfolding key_state_root tail_bytes encode_u64
key_state_root_inj m n hm hn h =
    let same_bytes : encode_u64 m ≡ encode_u64 n = ap (λ k. tail_bytes (tail_bytes k)) h in
    some_inj
      (sym (decode_u64-encode_u64 m hm) ∙ ap decode_u64 same_bytes ∙ decode_u64-encode_u64 n hn)
