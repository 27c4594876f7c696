-- ===== src/Lib.antt =====
-- The consensus core of Platarium, a ledger of assets with fees in millionths of PLP, and the
-- committees of validators that confirm its transactions and blocks. Paths below are from the
-- repository's root.
--
-- A transaction (Transaction, src/core/transaction.rs) names a sender, a receiver, an asset, an
-- amount, a fee and a nonce, and carries two signatures (Crypto, src/signature.rs). The engine
-- (Core, src/core/mod.rs) validates it, puts it into the mempool (Mempool, src/core/mempool.rs) and
-- applies it to the state (State, src/core/state.rs) by `apply_transfer`. The execution layer
-- (Execution, src/core/execution.rs) is a second way to the same transfer, which can simulate.
-- Fees (Fee, src/core/fee.rs) follow the size of the mempool. Validators are registered and scored
-- (Node, src/core/node_registry.rs), penalized (Slashing, src/core/slashing.rs), and selected into
-- committees by load and weight (Selection, src/core/validator_selection.rs). The first
-- committee votes on transactions (Votes, src/core/confirmation_layer.rs), the second on blocks
-- (Assembly, src/core/block_assembly.rs), whose leader rotates. Large transactions are given to
-- groups with stake enough (Assignment, src/core/tx_assignment.rs).
--
-- Each file has the operations of one source file, under their names there; the files in the folder
-- of its name have its theorems, named for their subject. Base passes on the libraries and has the
-- Boolean tests, lists over native numbers, machine words and results. Data has hash maps, orders,
-- sorting, byte strings and permutations. Asset is src/core/asset.rs. Tests has concrete data.
--
-- A mutable object is a value: an operation takes it and returns the new one beside its result, and
-- a lock or an `Arc` leaves no trace. A `HashMap` is an association list in an unknown order, a
-- `HashSet` the list of its elements. Numbers are natural; `+`, `-` and `*` wrap at 2 ^ 64 or
-- 2 ^ 128 as they do in a release build, and saturating methods stop there. An error keeps the
-- values that the program formats into a message. A panic, as of a remainder by
-- zero, is the error `panic`.
--
-- Three loops run on fuel. A layer of the Merkle tree has at most half of the one below, rounded up,
-- so the number of leaves is enough (Assembly.Merkle). The search for a sender's next nonce passes
-- each pending entry at most once, so one more than the size of the pool is enough
-- (Proposal.Pending.Nonces). A binary search halves its range, so the number of elements is enough
-- (Selection.Halving). A fee is printed with at most 20 digits before the point, enough for 64
-- bits, a balance with at most 39, enough for 128, and the index of a key with at most 10, enough
-- for 32. All else is structural recursion.
--
-- Block proposal (Proposal, src/core/block_proposal.rs and src/core/consensus_params.rs) admits
-- transactions of the gateway's JSON (Transaction.Gateway, `from_gateway_json`) to a pool, says when
-- a block is due, and selects its transactions. The file of a state (StateFile,
-- src/core/state_file.rs) is the decoded record. The storage
-- (Storage, src/storage) keeps blocks, accounts and receipts under byte-string keys: Storage.Schema
-- has the keys, Storage.Store the database's calls and src/storage/migrations.rs, Storage.Commit,
-- Storage.Snapshot and Storage.Query the files of their names, Storage.Import the import of JSON of
-- src/storage/rpc.rs. Consensus (src/core/consensus_cli.rs, src/core/block_proposal_cli.rs) verifies
-- packs of transactions and counts votes.
--
-- Keys (src/key_generator.rs, src/mnemonic.rs, src/utils.rs) makes mnemonics and derives the keys of
-- an account. Rpc (src/core/core_rpc.rs) answers the requests of a connection by the functions above:
-- Rpc.Params has the parameters, Rpc.Methods the names of the methods, Rpc.Wallet and Rpc.Committee
-- the methods with a body of their own, Rpc.Serve the lines. Storage.Answers has what a request does
-- with a database. The `World` of Rpc.Effects has the state files and the databases by their paths: a
-- file is its decoded contents, and two paths are two files. A file is saved through its temporary
-- file (StateFile.Saving); writing and renaming succeed. A panic ends the thread of a connection.
-- Cli (src/main.rs) runs a command of the command line by the same functions.
--
-- Parameters stand for the code outside the repository: SHA-256, hexadecimal and ECDSA are
-- fields of `Crypto`, `Hasher` and `Secp` (Crypto.Signing, src/signer.rs), or functions,
-- bip39, bip32 and hkdf are `KeyLibraries`, the random numbers `Random`, serde_json is `Json`,
-- `SnapshotDecoder`, `RequestDecoder` and `Codecs`, and rocksdb is `Database`, with `IsAtomic` for
-- what it documents. Not modelled: how answers are printed, how clap reads the arguments of the
-- command line, sockets, failures of the file system, and connections that overlap.
pub mod Base
pub mod Data
pub mod Asset
pub mod State
pub mod StateFile
pub mod Consensus
pub mod Storage
pub mod Crypto
pub mod Json
pub mod Keys
pub mod Rpc
pub mod Cli
pub mod Transaction
pub mod Execution
pub mod Mempool
pub mod Core
pub mod Fee
pub mod Node
pub mod Proposal
pub mod Slashing
pub mod Votes
pub mod Assembly
pub mod Selection
pub mod Assignment
mod Tests
