-- ===== src/Tests/Wallet.antt =====
-- A wallet whose requests are signed, at libraries that take every signature, and parameters that
-- are texts.
use Prim.Native.String.{String}
use text.Mathlib.Text.{◌==◌ as str_eq}
use platarium_core.Base.{
  zero, suc, ℕ, ◌≡◌, refl, true, false, Option, none, some, List, [], ◌∷◌, ok, if◌then◌else◌, arith,
}
use platarium_core.Data.Ord.{string_eq}
use platarium_core.Data.Map.{HashMap, get}
use platarium_core.Json.{Json}
use platarium_core.Crypto.{Crypto}
use platarium_core.Crypto.Signing.{Secp}
use platarium_core.Crypto.Signing.Verifies.{IsSigner}
use platarium_core.Transaction.{Transaction, TransactionHashData, validate_basic, validate_hash}
use platarium_core.Rpc.Params.{RequestDecoder}
use platarium_core.Asset.{plp}
use platarium_core.Rpc.Wallet.{sign_transaction_method}
use platarium_core.Rpc.Wallet.Signed.{sign_transaction-validates}
use platarium_core.Tests.Accounts.{key_libraries}
use platarium_core.Tests.Fixtures.{libraries}

-- Libraries for which each signature is 128 zeros, and good for each key.
abbrev zeros_128 : String
zeros_128 =
    "00000000000000000000000000000000000000000000000000000000000000000000000000000000000000000000000000000000000000000000000000000000"

zeros : ℕ → List ℕ
zeros zero = []
zeros (suc n) = 0 ∷ zeros n

abbrev pub zeros_64 : List ℕ
unfolding zeros
zeros_64 = zeros 64

abbrev wallet_crypto : Crypto TransactionHashData
wallet_crypto = record libraries {
  hex_encode = λ bytes. zeros_128;
  hex_decode = λ text. some zeros_64;
  verify_ecdsa = λ digest signature key. true;
}

abbrev pub wallet : Secp ℕ (List ℕ)
wallet = record {
  to_seed = λ mnemonic part. some [];
  hkdf_expand = λ seed info. some [];
  secret_from_slice = λ bytes. some 0;
  public_key = λ secret. zeros_64;
  sign_ecdsa = λ digest secret. zeros_64;
  serialize_compact = λ signature. signature;
  serialize_der = λ signature. signature;
}

wallet-IsSigner : IsSigner wallet_crypto wallet
unfolding zeros_64
wallet-IsSigner = record {
  compact_hex = λ digest secret. refl;
  compact_length = λ digest secret. refl;
  digest = λ bytes. refl;
  compact_decode = λ digest secret. refl;
  public_key_decode = λ secret. refl;
  compact_bytes = λ digest secret. refl;
  compact = λ digest secret. refl;
  public_key = λ secret. refl;
  signed = λ digest secret. refl;
}

-- A JSON value is a text, and an object one of these names.
abbrev fields : HashMap String (HashMap String String)
fields =
    ("credit", ("id", "1") ∷ ("method", "state_credit") ∷ ("params", "five") ∷ [])
    ∷ ("query", ("id", "2") ∷ ("method", "state_query") ∷ ("params", "five") ∷ [])
    ∷ (
      "five",
      ("state_file", "a.json")
          ∷ ("address", "bob")
          ∷ ("plp", "5")
          ∷ ("uplp", "5")
          ∷ ("testnet", "true")
          ∷ [],
    )
    ∷ ("validate", ("state_file", "a.json") ∷ ("tx", "payment") ∷ [])
    ∷ (
      "sign",
      ("from", "alice")
          ∷ ("to", "bob")
          ∷ ("amount", "5")
          ∷ ("fee_uplp", "5")
          ∷ ("nonce", "5")
          ∷ ("mnemonic", "abandon")
          ∷ ("alphanumeric", "AAAA")
          ∷ [],
    )
    ∷ []

abbrev field_of : Option (HashMap String String) → String → Option String
field_of none name = none
field_of (some object) name = get object name

abbrev pub texts : Json String
texts = record {
  from_str = λ s. if str_eq s "bad" then none else some s;
  index = λ v name. v;
  get = λ v name. field_of (get fields v) name;
  is_null = λ v. false;
  as_str = λ v. some v;
  as_u64 = λ v. if str_eq v "5" then some 5 else none;
  as_f64 = λ v. none;
  as_array = λ v. none;
}

abbrev pub decoder : RequestDecoder String
decoder = record {
  null = "null";
  empty_object = "{}";
  as_i64 = λ v. none;
  as_bool = λ v. some (str_eq v "true");
  candidates_from_str = λ s. none;
  texts_from_str = λ s. some [];
  commit_from_str = λ s. none;
  snapshot_from_str = λ s. none;
}

abbrev signed_payment : Transaction
signed_payment = record {
  hash = zeros_128;
  from = "alice";
  to = "bob";
  asset = plp;
  amount = 5;
  fee_uplp = 5;
  nonce = 5;
  reads = [];
  writes = [];
  sig_main = zeros_128;
  sig_derived = zeros_128;
  pub_main = some zeros_128;
  pub_derived = some zeros_128;
}

sign_test :
    sign_transaction_method texts decoder key_libraries "sign" wallet wallet_crypto
    ≡ ok signed_payment
unfolding sign_transaction_method
sign_test = refl

sign_transaction-validates_example :
    (validate_basic wallet_crypto signed_payment ≡ ok tt)
    × (validate_hash wallet_crypto signed_payment ≡ true)
sign_transaction-validates_example =
    sign_transaction-validates texts decoder key_libraries wallet_crypto wallet "sign"
      wallet-IsSigner signed_payment sign_test (omega arith) (omega arith)
