-- ===== src/Storage/Schema.antt =====
-- src/storage/schema.rs: the keys, and the big-endian heights in them.
pub mod Keys
use Prim.Native.String.{String}
use platarium_core.Base.{ℕ, Option, none, some, [], ◌∷◌, ◌++◌, length, ◌==◌, if◌then◌else◌}
use platarium_core.Data.BigEndian.{to_be_bytes, from_be_bytes}
use platarium_core.Data.Bytes.{as_bytes}
use platarium_core.Storage.{Bytes}

abbrev pub schema_version : ℕ
schema_version = 1

abbrev pub prefix_account : Bytes
prefix_account = b'a' ∷ b'/' ∷ []

abbrev pub prefix_tx : Bytes
prefix_tx = b't' ∷ b'/' ∷ []

abbrev pub prefix_block : Bytes
prefix_block = b'b' ∷ b'/' ∷ []

abbrev pub prefix_receipt : Bytes
prefix_receipt = b'r' ∷ b'/' ∷ []

abbrev pub prefix_state_root : Bytes
prefix_state_root = b's' ∷ b'/' ∷ []

abbrev pub prefix_idx_addr : Bytes
prefix_idx_addr = b'i' ∷ b'/' ∷ b'a' ∷ b'/' ∷ []

abbrev pub prefix_idx_block : Bytes
prefix_idx_block = b'i' ∷ b'/' ∷ b'b' ∷ b'/' ∷ []

abbrev pub prefix_snapshot : Bytes
prefix_snapshot = b's' ∷ b'n' ∷ b'a' ∷ b'p' ∷ b'/' ∷ []

abbrev pub key_meta_head : Bytes
key_meta_head = b'm' ∷ b'e' ∷ b't' ∷ b'a' ∷ b'/' ∷ b'h' ∷ b'e' ∷ b'a' ∷ b'd' ∷ []

abbrev pub key_meta_schema : Bytes
key_meta_schema = b'm' ∷ b'e' ∷ b't' ∷ b'a' ∷ b'/' ∷ b's' ∷ b'c' ∷ b'h' ∷ b'e' ∷ b'm' ∷ b'a' ∷ []

unfoldable pub key_account : String → Bytes
key_account address = prefix_account ++ as_bytes address

unfoldable pub key_tx : String → Bytes
key_tx tx_hash = prefix_tx ++ as_bytes tx_hash

unfoldable pub key_block : ℕ → Bytes
key_block height = prefix_block ++ to_be_bytes 8 height

unfoldable pub key_receipt : String → Bytes
key_receipt tx_hash = prefix_receipt ++ as_bytes tx_hash

unfoldable pub key_state_root : ℕ → Bytes
key_state_root height = prefix_state_root ++ to_be_bytes 8 height

unfoldable pub key_idx_addr : String → ℕ → String → Bytes
key_idx_addr address height tx_hash =
    prefix_idx_addr
    ++ (as_bytes address ++ (b'/' ∷ (to_be_bytes 8 height ++ (b'/' ∷ as_bytes tx_hash))))

unfoldable pub key_idx_block : ℕ → ℕ → Bytes
key_idx_block height idx = prefix_idx_block ++ (to_be_bytes 8 height ++ (b'/' ∷ to_be_bytes 4 idx))

unfoldable pub key_snapshot : ℕ → Bytes
key_snapshot height = prefix_snapshot ++ to_be_bytes 8 height

unfoldable pub encode_u64 : ℕ → Bytes
encode_u64 n = to_be_bytes 8 n

unfoldable pub decode_u64 : Bytes → Option ℕ
unfolding from_be_bytes
decode_u64 bytes = if length bytes == 8 then some (from_be_bytes 0 bytes) else none
