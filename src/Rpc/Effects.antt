-- ===== src/Rpc/Effects.antt =====
-- src/core/core_rpc.rs: what a request may change, and the answers.
use Prim.Native.String.{String}
use platarium_core.Base.{ℕ, Bool, Option, none, some, List, Result, ok, err}
use platarium_core.Data.Ord.{string_eq}
use platarium_core.Json.{Json}
use platarium_core.Assembly.{Hasher, Block, BlockConfirmationResult}
use platarium_core.Consensus.{Verification, VoteDecoder}
use platarium_core.Crypto.{Crypto}
use platarium_core.Crypto.Signing.{Secp, DualSignature}
use platarium_core.Keys.{KeyLibraries, KeyPair, Random}
use platarium_core.Node.{NodeId}
use platarium_core.Proposal.{
  SnapshotDecoder, MempoolAdmitResult, BlockProposalStatus, SelectBlockTxsResult,
}
use platarium_core.Rpc.Params.{RequestDecoder, param_str}
use platarium_core.StateFile.{StateFileData, StateQuery}
use platarium_core.StateFile.Saving.{Paths, update, save_state_file}
use platarium_core.Storage.{Database, Codecs, BlockRecordStored, AccountRecord}
use platarium_core.Storage.Answers.{ThinSnapshot}
use platarium_core.Storage.Import.{ImportDecoder}
use platarium_core.Transaction.{Transaction, TransactionHashData}
use platarium_core.Votes.{ConfirmationResult}

-- The state files and the databases by their paths. A file is its decoded contents, and two
-- different paths are two files.
pub record World (Db : Type 0) : Type 0 where
  pub files : String → Option StateFileData
  pub stores : String → Db

-- The external libraries, and what opening a database and the random numbers give.
pub record Libraries (Value Db Mnemonic Node Key Secret Signature : Type 0) : Type 0 where
  pub json : Json Value
  pub requests : RequestDecoder Value
  pub imports : ImportDecoder Value
  pub pools : SnapshotDecoder Value
  pub votes : VoteDecoder Value
  pub codecs : Codecs
  pub database : Database Db
  pub opened : String → Result (Unit {0})
  pub hasher : Hasher
  pub transactions : Crypto TransactionHashData
  pub messages : Crypto Value
  pub secp : Secp Secret Signature
  pub keys : KeyLibraries Mnemonic Node Key
  pub random : Random
  pub paths : Paths

-- The answers, before they are printed as JSON
pub data Reply : Type 0 where
  pong : Reply
  initialized : String → Reply
  queried : String → StateQuery → Reply
  validity : Result (Unit {0}) → Reply
  applied : String → String → Reply
  credited : String → Reply
  rooted : String → Reply
  verification : Verification → Reply
  l1_outcome : Result (ConfirmationResult × List NodeId) → Reply
  l2_outcome : Result (BlockConfirmationResult × List NodeId) → Reply
  assembled : Block → Reply
  min_fee : ℕ → Reply
  admitted : MempoolAdmitResult → Reply
  proposal : BlockProposalStatus → Reply
  selected : SelectBlockTxsResult → Reply
  head : ℕ → Reply
  tx : Option String → Reply
  block : Option BlockRecordStored → Reply
  account : Option AccountRecord → Reply
  address_txs : String → List String → Reply
  committed : ℕ → Reply
  snapshots : List ThinSnapshot → Reply
  bootstrapped : ℕ → Reply
  migrated : ℕ → ℕ → Reply
  percent : ℕ → Reply
  count : ℕ → Reply
  committee : List NodeId → Reply
  mnemonic : String → String → Reply
  generated : KeyPair → Reply
  verified : Bool → Reply
  signed : DualSignature → Reply
  signed_transaction : Transaction → Reply

-- What a method reads of a file, what it saves if it saves, and the result
abbrev pub FileAction : Type 0
FileAction = Option StateFileData → Option StateFileData × Result Reply

abbrev pub reply_with {ℓ κ} :
    {A : Type ℓ} {S : Type κ} → (A → Reply) → S × Result A → S × Result Reply
reply_with f (s, err e) = (s, err e)
reply_with f (s, ok a) = (s, ok (f a))

abbrev pub map_ok {ℓ} : {A : Type ℓ} → (A → Reply) → Result A → Result Reply
map_ok f (err e) = err e
map_ok f (ok a) = ok (f a)

module _ {Db : Type 0} where
  -- a method without files
  abbrev pub answer : World Db → Result Reply → World Db × Result Reply
  answer w r = (w, r)

  abbrev pub keep_file :
      Paths → World Db → String → Option StateFileData × Result Reply → World Db × Result Reply
  keep_file p w path (none, r) = (w, r)
  keep_file p w path (some saved, r) =
      (record w { files = save_state_file p w.files path saved }, r)

  abbrev pub keep_store : World Db → String → Db × Result Reply → World Db × Result Reply
  keep_store w path (db, r) = (record w { stores = update w.stores path db }, r)

  abbrev pub with_path :
      World Db → Result String → (String → World Db × Result Reply) → World Db × Result Reply
  with_path w (err e) k = (w, err e)
  with_path w (ok path) k = k path

  abbrev pub with_request :
      {A : Type 0} → World Db → Result A → (A → World Db × Result Reply) → World Db × Result Reply
  with_request w (err e) k = (w, err e)
  with_request w (ok a) k = k a

-- A method on the file that the parameter `state_file` names, which is read first, and on the
-- database that `db_path` names. The other parameters give the action.
module _ {Value Db : Type 0} (j : Json Value) (d : RequestDecoder Value) (p : Paths) (w : World Db)
    (params : Value) where
  unfoldable pub on_file : (String → Result FileAction) → World Db × Result Reply
  unfolding save_state_file
  on_file request =
      with_path w (param_str j d params "state_file")
        λ path. with_request w (request path) λ act. keep_file p w path (act (w.files path))

  unfoldable pub on_store : (String → Result (Db → Db × Result Reply)) → World Db × Result Reply
  on_store request =
      with_path w (param_str j d params "db_path")
        λ path. with_request w (request path) λ act. keep_store w path (act (w.stores path))
