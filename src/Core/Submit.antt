-- ===== src/Core/Submit.antt =====
-- Submitting a transaction either takes effect in both parts of the engine or in neither.
use Prim.Native.String.{String}
use text.Mathlib.TextEquality.{eq_iff}
use platarium_core.Base.{◌≡◌, false, arith, ok, err, PlatariumError, some}
use platarium_core.Data.Ord.{string_eq}
use platarium_core.Data.Map
use platarium_core.Data.Map.{
  contains_key, get, insert, IsMap, get-insert, get-remove, insert-IsMap, contains_key-insert,
  contains_key-get,
}
use platarium_core.Crypto.{Crypto}
use platarium_core.State.{State, apply_transfer}
use platarium_core.Mempool.{Mempool, MempoolEntry, get_transaction}
use platarium_core.Transaction.{Transaction, TransactionHashData}
use platarium_core.Execution.{apply_transaction}
use platarium_core.Core.{Core, submit_transaction}

-- What is added and removed again leaves no trace in the pool.
get-remove-insert :
    (m : Mempool) (tx : Transaction) (e : MempoolEntry) (h : String)
    → IsMap m.transactions
    → contains_key m.transactions tx.hash ≡ false
    → get (Map.remove (insert m.transactions tx.hash e) tx.hash) h ≡ get m.transactions h
get-remove-insert m tx e h k c = ground (
  arith,
  get-remove (insert m.transactions tx.hash e) tx.hash h (insert-IsMap m.transactions tx.hash e k),
  get-insert m.transactions tx.hash e h,
  contains_key-get m.transactions tx.hash c,
  eq_iff tx.hash h,
)

module _ (c : Crypto TransactionHashData) where
  apply_transaction-err :
      (s : State) (tx : Transaction) (e : PlatariumError)
      → (apply_transaction c s tx).1 ≡ err e
      → (apply_transaction c s tx).0 ≡ s
  unfolding apply_transaction apply_transfer
  apply_transaction-err s tx e h = ground arith

  -- A submission that fails leaves the state as it was, and every lookup in the pool.
  pub submit_transaction_err :
      (core : Core) (tx : Transaction) (e : PlatariumError) (h : String)
      → IsMap core.mempool.transactions
      → (submit_transaction c core tx).1 ≡ err e
      → let core' = (submit_transaction c core tx).0 in
        (core'.state ≡ core.state)
        × (get_transaction core'.mempool h ≡ get_transaction core.mempool h)
  unfolding submit_transaction get_transaction
  submit_transaction_err core tx e h k r = (
    ground (arith, apply_transaction-err core.state tx e),
    ground (
      arith,
      get-remove-insert core.mempool tx
          (record { tx = tx; arrival_index = core.mempool.next_arrival_index }) h k,
    ),
  )

  -- A submission that succeeds returns the transaction's hash, has applied it to the state, and
  -- keeps it in the pool.
  pub submit_transaction_ok :
      (core : Core) (tx : Transaction) (hash : String)
      → (submit_transaction c core tx).1 ≡ ok hash
      → let core' = (submit_transaction c core tx).0 in
        (hash ≡ tx.hash)
        × (apply_transaction c core.state tx ≡ (core'.state, ok tt))
        × (get_transaction core'.mempool hash ≡ some tx)
  unfolding submit_transaction get_transaction
  submit_transaction_ok core tx hash r = (
    ground arith,
    ground arith,
    ground (
      arith,
      get-insert core.mempool.transactions tx.hash
          (record { tx = tx; arrival_index = core.mempool.next_arrival_index }) hash,
      eq_iff tx.hash hash,
    ),
  )
