-- ===== src/Mempool.antt =====
-- src/core/mempool.rs: pending transactions, their arrival order and the forced-inclusion queue.
pub mod Invariant
pub mod Block
pub mod Order
use Prim.Native.String.{String}
use platarium_core.Base.{
  ℕ, suc, ◌+◌, Bool, true, false, ◌&&◌, not, Option, none, some, List, [], ◌∷◌, ◌++◌, map, ltb, leb,
  if◌then◌else◌, filter, any, is_empty, length, u64_mod, saturating_add, Result, ok, err,
  duplicate_transaction,
}
use platarium_core.Data.Ord.{◌==◌, string_eq, string_ord, nat_ord, pair_ord}
use platarium_core.Data.Map
use platarium_core.Data.Map.{HashMap, get, insert, contains_key, values}
use platarium_core.Data.Sort.{sort_by}
use platarium_core.Transaction.{Transaction}

pub record MempoolEntry : Type 0 where
  pub tx : Transaction
  pub arrival_index : ℕ

abbrev pub max_forced_inclusion_queue : ℕ
max_forced_inclusion_queue = 256

pub record Mempool : Type 0 where
  pub transactions : HashMap String MempoolEntry
  pub next_arrival_index : ℕ
  pub forced_inclusion : List String

-- `Mempool::new`
abbrev pub new : Mempool
new = record { transactions = []; next_arrival_index = 0; forced_inclusion = [] }

unfoldable pub add_transaction : Mempool → Transaction → Mempool × Result (Unit {0})
add_transaction m tx =
    if contains_key m.transactions tx.hash then (m, err (duplicate_transaction tx.hash)) else (
      record m {
        transactions =
            insert m.transactions tx.hash
              (record { tx = tx; arrival_index = m.next_arrival_index });
        next_arrival_index = saturating_add u64_mod m.next_arrival_index 1;
      },
      ok tt,
    )

abbrev transaction_of : Option MempoolEntry → Option Transaction
transaction_of none = none
transaction_of (some e) = some e.tx

unfoldable pub get_transaction : Mempool → String → Option Transaction
get_transaction m hash = transaction_of (get m.transactions hash)

unfoldable pub remove_transaction : Mempool → String → Mempool × Bool
remove_transaction m hash =
    (record m { transactions = Map.remove m.transactions hash }, contains_key m.transactions hash)

abbrev remove_all : HashMap String MempoolEntry → List String → HashMap String MempoolEntry
remove_all transactions [] = transactions
remove_all transactions (hash ∷ hashes) = remove_all (Map.remove transactions hash) hashes

unfoldable pub remove_transactions : Mempool → List String → Mempool
remove_transactions m hashes = record m { transactions = remove_all m.transactions hashes }

-- The sort's key: `(arrival_index, tx.hash)`
abbrev pub arrival : MempoolEntry → ℕ × String
arrival e = (e.arrival_index, e.tx.hash)

unfoldable pub get_all_transactions : Mempool → List Transaction
get_all_transactions m = map (λ e. e.tx) (sort_by arrival (values m.transactions))

unfoldable pub len : Mempool → ℕ
len m = length m.transactions

unfoldable pub mempool_is_empty : Mempool → Bool
mempool_is_empty m = is_empty m.transactions

unfoldable pub contains : Mempool → String → Bool
contains m hash = contains_key m.transactions hash

unfoldable pub clear : Mempool → Mempool
clear m = record m { transactions = [] }

-- `Vec::contains`
abbrev pub holds : List String → String → Bool
holds q h = any (λ x. x == h) q

unfoldable pub add_forced_inclusion : Mempool → String → Mempool
add_forced_inclusion m tx_hash =
    if ltb (length m.forced_inclusion) max_forced_inclusion_queue
      && not (holds m.forced_inclusion tx_hash)
    then record m { forced_inclusion = m.forced_inclusion ++ tx_hash ∷ [] }
    else m

unfoldable pub remove_forced_inclusion : Mempool → List String → Mempool
remove_forced_inclusion m hashes = record m {
  forced_inclusion = filter (λ h. not (holds hashes h)) m.forced_inclusion;
}

-- The loop of `get_transaction_hashes_for_block`: `used` always holds the hashes of `result`.
unfoldable pub fill_block : ℕ → List Transaction → List String → List String
fill_block max_count [] result = result
fill_block max_count (tx ∷ txs) result =
    if leb max_count (length result)
    then result
    else fill_block max_count txs (if holds result tx.hash then result else result ++ tx.hash ∷ [])

unfoldable pub get_transaction_hashes_for_block : Mempool → ℕ → List String
unfolding get_all_transactions fill_block
get_transaction_hashes_for_block m max_count =
    let all_txs = get_all_transactions m in
    let in_mempool = map (λ (t : Transaction). t.hash) all_txs in
    fill_block max_count all_txs (filter (λ h. holds in_mempool h) m.forced_inclusion)
