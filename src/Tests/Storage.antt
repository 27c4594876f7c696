-- ===== src/Tests/Storage.antt =====
-- Storage at a database that is a list of puts, and a state's round trip through its file form.
use platarium_core.Base.{
  ℕ, ◌≡◌, refl, ap, sym, ◌∙◌, inl, inr, Option-cases, false, Option, none, some, [], ◌∷◌, ◌++◌,
  arith, Result, ok,
}
use platarium_core.Data.BigEndian.{bytes_eq, to_be_bytes}
use platarium_core.Data.Parse.{strip_prefix}
use platarium_core.Data.Int.{pos}
use platarium_core.Asset.{Asset, as_canonical}
use platarium_core.Json.{Json}
use platarium_core.State.{State, Address, get_asset_balance, get_uplp_balance, get_nonce}
use platarium_core.State.WellFormed.{IsWellFormed}
use platarium_core.StateFile.{from_state, into_state}
use platarium_core.StateFile.RoundTrip.{HasCanonicalAssets, into_state-from_state}
use platarium_core.Transaction.Gateway.{parse_canonical}
use platarium_core.Storage.{
  Bytes, WriteBatch, Database, Codec, Codecs, BlockRecordStored, BlockCommit, last_put, overwrite,
  IsAtomic, IsFaithful,
}
use platarium_core.Storage.Schema.{
  encode_u64, decode_u64, key_receipt, key_account, key_idx_block, key_tx,
}
use platarium_core.Storage.Store.{head_height}
use platarium_core.Storage.Commit.{commit_block}
use platarium_core.Storage.Commit.Chain.{Represents}
use platarium_core.Storage.Commit.Advance.{Outcome, commit_block-Represents}
use platarium_core.Storage.Import.{import_all}
use platarium_core.Storage.Import.Sequence.{import_all-Represents}
use platarium_core.Tests.Fixtures.{ledger}

-- A database that keeps its puts in order, and never fails.
abbrev pub puts_db : Database WriteBatch
puts_db = record {
  get = λ db k. ok (last_put db k);
  put = λ db k v. (db ++ (k, v) ∷ [], ok tt);
  write = λ db batch. (db ++ batch, ok tt);
  prefix_iterator = λ db prefix. [];
}

abbrev pub or_before : Option Bytes → Option Bytes → Option Bytes
or_before none before = before
or_before (some v) before = some v

pub last_put-append_lem :
    (a b : WriteBatch) (k : Bytes) → last_put (a ++ b) k ≡ or_before (last_put b k) (last_put a k)
unfolding last_put
last_put-append_lem [] b k = elim (Option-cases (last_put b k)) [
  | inl e ↦ rw e refl
  | inr (v, e) ↦ rw e refl
]
last_put-append_lem ((j, v) ∷ a) b k = elim (Option-cases (last_put b k)) [
  | inl e ↦ ground (arith, e, last_put-append_lem a b k)
  | inr (w, e) ↦ ground (arith, e, last_put-append_lem a b k)
]

overwrite-or_before :
    (o before : Option Bytes)
    → ◌≡◌ {A = Result (Option Bytes)} (ok (or_before o before)) (overwrite o (ok before))
overwrite-or_before none before = refl
overwrite-or_before (some v) before = refl

pub puts_db-IsAtomic : IsAtomic puts_db
puts_db-IsAtomic = record {
  write-ok = λ db batch h k.
      ap ok (last_put-append_lem db batch k)
      ∙ overwrite-or_before (last_put batch k) (last_put db k);
  write-err = λ db batch h. absurd (h refl);
}

abbrev pub block_at : ℕ → BlockRecordStored
block_at height = record {
  height = height;
  previous_hash = "0";
  timestamp = pos 1;
  tx_hashes = "aabb" ∷ [];
  merkle_root = "m";
  state_root = "root1";
  block_hash = "bh1";
  producer_id = "n1";
}

abbrev pub first_commit : BlockCommit
first_commit = record {
  block = block_at 1;
  tx_jsons = "{}" ∷ [];
  accounts =
      record { address = "PxA"; balance = b'9' ∷ b'0' ∷ []; uplp_balance = b'0' ∷ []; nonce = 1 }
      ∷ [];
  receipts = record { tx_hash = "aabb"; status = "ok"; fee_uplp = 1; block_height = 1 } ∷ [];
  state_root = "root1";
}

-- Blocks are written as their height, and only the text of the root is read.
abbrev pub height_codec : Codec BlockRecordStored
height_codec = record {
  to_vec = λ b. some (b.height ∷ []);
  from_slice = λ bytes. elim bytes [ [] ↦ none | h ∷ rest ↦ some (block_at h) ];
}

abbrev pub codecs : Codecs
codecs = record {
  block = height_codec;
  account = record { to_vec = λ a. some []; from_slice = λ bytes. none };
  receipt = record { to_vec = λ r. some []; from_slice = λ bytes. none };
  snapshot = record { to_vec = λ m. none; from_slice = λ bytes. none };
  from_utf8_lossy = λ bytes. "root1";
}

abbrev pub no_json : Json ℕ
no_json = record {
  from_str = λ s. none;
  index = λ v name. v;
  get = λ v name. none;
  is_null = λ v. false;
  as_str = λ v. none;
  as_u64 = λ v. none;
  as_f64 = λ v. none;
  as_array = λ v. none;
}

pub first_commit-IsFaithful : IsFaithful codecs first_commit
first_commit-IsFaithful = record {
  block_roundtrip =
      λ bytes h. ap (λ o. elim o [ none ↦ none | some b ↦ codecs.block.from_slice b ]) (sym h);
  text_roundtrip = refl;
}

empty-Represents : Represents puts_db codecs [] []
unfolding head_height last_put
empty-Represents = record { head = refl; blocks = λ i b h. absurd (ground (arith, h)) }

-- The first block is committed, and its height is the head's.
commit_test :
    ((commit_block puts_db codecs no_json [] first_commit).1 ≡ ok tt)
    × (head_height puts_db (commit_block puts_db codecs no_json [] first_commit).0 ≡ ok 1)
unfolding commit_block head_height last_put key_receipt key_account key_idx_block key_tx decode_u64
    encode_u64 to_be_bytes
commit_test = (refl, refl)

commit_block-Represents_example :
    Outcome puts_db codecs no_json [] [] first_commit
      (commit_block puts_db codecs no_json [] first_commit)
commit_block-Represents_example =
    commit_block-Represents puts_db codecs no_json puts_db-IsAtomic [] [] first_commit
      first_commit-IsFaithful (omega arith) empty-Represents

ledger-HasCanonicalAssets : HasCanonicalAssets ledger
unfolding parse_canonical as_canonical strip_prefix
ledger-HasCanonicalAssets = (refl, (refl, (refl, tt)))

saved-IsWellFormed : IsWellFormed ledger
saved-IsWellFormed = record {
  assets = ((refl, (refl, (refl, tt))), (omega arith, (omega arith, (omega arith, tt))));
  uplp = ((refl, tt), (omega arith, tt));
  nonces = ((refl, tt), (omega arith, tt));
}

into_state-from_state_example :
    (loaded : State) × (into_state (from_state ledger) ≡ ok loaded)
    × ((address : Address) (asset : Asset)
        → get_asset_balance loaded address asset ≡ get_asset_balance ledger address asset)
    × ((address : Address) → get_uplp_balance loaded address ≡ get_uplp_balance ledger address)
    × ((address : Address) → get_nonce loaded address ≡ get_nonce ledger address)
into_state-from_state_example =
    into_state-from_state ledger saved-IsWellFormed ledger-HasCanonicalAssets

-- An import of the one block
import_test : (import_all puts_db codecs no_json [] (first_commit ∷ [])).1 ≡ ok tt
unfolding import_all head_height last_put key_receipt key_account key_idx_block key_tx decode_u64
    encode_u64 to_be_bytes
import_test = refl

import_all-Represents_example :
    Represents puts_db codecs
      (import_all puts_db codecs no_json [] (first_commit ∷ [])).0
      (block_at 1 ∷ [])
import_all-Represents_example =
    import_all-Represents puts_db codecs no_json puts_db-IsAtomic (first_commit ∷ []) [] []
      (first_commit-IsFaithful, tt) (omega arith) (refl, tt) empty-Represents import_test
