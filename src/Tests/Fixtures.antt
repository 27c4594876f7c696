-- ===== src/Tests/Fixtures.antt =====
-- A ledger with two accounts, a payment between them, and libraries that stand in for the
-- external ones.
use text.Mathlib.Text.{◌==◌ as str_eq}
use platarium_core.Base.{not, is_empty, if◌then◌else◌, none, some, [], ◌∷◌}
use platarium_core.Asset.{plp}
use platarium_core.Crypto.{Crypto}
use platarium_core.State.{State}
use platarium_core.Transaction.{Transaction, TransactionHashData}

abbrev pub ledger : State
ledger = record {
  asset_balances =
      (("alice", "PLP"), 1_000) ∷ (("bob", "PLP"), 50) ∷ (("alice", "Token:usd"), 300) ∷ [];
  uplp_balances = ("alice", 4) ∷ [];
  nonces = ("alice", 7) ∷ [];
}

-- Every signature verifies for the key of Alice, and for no other; a digest is the message's bytes.
abbrev pub libraries : Crypto TransactionHashData
libraries = record {
  to_json = λ m. m.from;
  sha256 = λ bytes. bytes;
  hex_encode = λ bytes. "00";
  hex_decode = λ text. some (if str_eq text "alice-key" then 1 ∷ [] else []);
  from_digest_slice = λ bytes. some bytes;
  from_compact = λ bytes. some bytes;
  from_der = λ bytes. some bytes;
  from_slice = λ bytes. some bytes;
  verify_ecdsa = λ digest signature key. not (is_empty key);
}

abbrev pub payment : Transaction
payment = record {
  hash = "h1";
  from = "alice";
  to = "bob";
  asset = plp;
  amount = 100;
  fee_uplp = 6;
  nonce = 7;
  reads = "alice" ∷ "bob" ∷ [];
  writes = "bob" ∷ [];
  sig_main = "aa";
  sig_derived = "bb";
  pub_main = some "alice-key";
  pub_derived = none;
}
