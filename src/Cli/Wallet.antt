-- ===== src/Cli/Wallet.antt =====
-- src/main.rs: the commands on keys, signatures and committees.
use Prim.Native.String.{String}
use platarium_core.Base.{
  ℕ, Bool, not, Option, none, some, List, length, ◌==◌, Result, ok, ◌>>=◌, ◌>>◌, guard, other,
}
use platarium_core.Data.Parse.{trim_text}
use platarium_core.Data.Set.{collect_set}
use platarium_core.Crypto.{normalize_signature_hex, verify_signature}
use platarium_core.Crypto.Signing.{DualSignature, sign_with_both_keys}
use platarium_core.Keys.{KeyPair, generate_alphanumeric_part, restore_keys, new}
use platarium_core.Node.{NodeId}
use platarium_core.Rpc.Effects.{Libraries}
use platarium_core.Rpc.Wallet.{or_else, ok_or, path_bytes, both, tx_hash_data}
use platarium_core.Keys.{validate_mnemonic}
use platarium_core.Selection.{select_n_by_weight}
use platarium_core.Transaction.{Transaction}
use platarium_core.Transaction.Gateway.{parse_canonical, require}
use platarium_core.Cli.Arguments.{resolve_cli_json_arg}

module _ {Value Db Mnemonic Node Key Secret Signature : Type 0}
    (l : Libraries Value Db Mnemonic Node Key Secret Signature) where
  open l use {json, requests, hasher, keys, secp, random}

  abbrev pub check_mnemonic : String → Result (Unit {0})
  check_mnemonic mnemonic =
      guard (not (validate_mnemonic keys mnemonic)) (other "Invalid mnemonic phrase")

  -- The seed has 32 bytes.
  unfoldable pub handle_select_committee :
      (String → Result String) → String → String → ℕ → Result (List NodeId)
  unfolding resolve_cli_json_arg select_n_by_weight
  handle_select_committee read candidates seed_hex n = do
    candidates_json ← resolve_cli_json_arg read candidates
    pairs ← require "invalid candidates JSON" (requests.candidates_from_str candidates_json)
    seed ← require "invalid seed_hex" (hasher.hex_decode (trim_text seed_hex))
    guard (not (length seed == 32)) (other "seed_hex must be 64 hex chars (32 bytes)")
    select_n_by_weight hasher.sha256 pairs seed n

  unfoldable pub handle_generate_keys : String → Option String → ℕ → Option String → Result KeyPair
  unfolding generate_alphanumeric_part new restore_keys validate_mnemonic
  handle_generate_keys mnemonic alphanumeric seed_index custom_path = do
    check_mnemonic mnemonic
    let part = or_else alphanumeric (ok_or (generate_alphanumeric_part random 12) "")
    let path = path_bytes custom_path
    key_gen ← new seed_index none none path
    restore_keys keys key_gen mnemonic part seed_index path

  -- Both signatures are printed.
  unfoldable pub handle_sign_message :
      (String → Result String) → String → String → String → Result DualSignature
  unfolding resolve_cli_json_arg sign_with_both_keys validate_mnemonic
  handle_sign_message read message mnemonic alphanumeric = do
    check_mnemonic mnemonic
    message_json ← resolve_cli_json_arg read message
    value ← require "Invalid JSON message" (json.from_str message_json)
    signed ← sign_with_both_keys l.messages secp value mnemonic alphanumeric
    pair ← both signed.signatures
    ok signed

  unfoldable pub handle_verify_signature : String → String → String → Result Bool
  unfolding verify_signature
  handle_verify_signature message signature pubkey = do
    value ← require "Invalid JSON message" (json.from_str message)
    verify_signature l.messages value signature pubkey

  unfoldable pub handle_sign_transaction :
      String → String → String → ℕ → ℕ → ℕ → String → String → String → String → Result Transaction
  unfolding parse_canonical sign_with_both_keys normalize_signature_hex validate_mnemonic
  handle_sign_transaction from to asset amount fee_uplp nonce reads_text writes_text mnemonic part =
      do
        check_mnemonic mnemonic
        reads_vec ← require "invalid reads JSON" (requests.texts_from_str reads_text)
        writes_vec ← require "invalid writes JSON" (requests.texts_from_str writes_text)
        let reads = collect_set reads_vec
        let writes = collect_set writes_vec
        signed ←
            sign_with_both_keys l.transactions secp
              (tx_hash_data from to asset amount fee_uplp nonce reads writes) mnemonic part
        pair ← both signed.signatures
        ok (record {
          hash = signed.hash;
          from = from;
          to = to;
          asset = parse_canonical asset;
          amount = amount;
          fee_uplp = fee_uplp;
          nonce = nonce;
          reads = reads;
          writes = writes;
          sig_main = normalize_signature_hex pair.0.signature_compact;
          sig_derived = normalize_signature_hex pair.1.signature_compact;
          pub_main = some pair.0.pub_key;
          pub_derived = some pair.1.pub_key;
        })
