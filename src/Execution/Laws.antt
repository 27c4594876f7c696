-- ===== src/Execution/Laws.antt =====
-- The two paths to a transfer agree, and simulation agrees with production.
use platarium_core.Base.{◌<◌, ◌≡◌, refl, some, arith, u128_mod, is_ok}
use platarium_core.Crypto.{Crypto}
use platarium_core.State.{State, apply_transfer, check_transfer}
use platarium_core.State.Snapshot.{create_snapshot}
use platarium_core.Transaction.{Transaction, TransactionHashData}
use platarium_core.Execution.{
  ExecutionContext, production, check_transaction_applicability, execute_transaction, simulate,
  result_of, apply_transaction,
}

-- The applicability check of the execution layer passes exactly when the transfer itself would.
pub check_transaction_applicability-eq-apply_transfer :
    (s : State) (tx : Transaction)
    → tx.amount < u128_mod
    → is_ok (check_transaction_applicability s tx)
      ≡ is_ok (apply_transfer s tx.from tx.to tx.asset tx.amount tx.fee_uplp (some tx.nonce)).1
unfolding check_transaction_applicability apply_transfer check_transfer
check_transaction_applicability-eq-apply_transfer s tx small = ground arith

module _ (c : Crypto TransactionHashData) where
  -- Executing a transaction and applying it to the state directly have the same effect: the same
  -- new state, and success or failure alike.
  pub execute_transaction-eq-apply_transaction :
      (s : State) (tx : Transaction) (context : ExecutionContext)
      → tx.amount < u128_mod
      → ((execute_transaction c s tx context).0 ≡ (apply_transaction c s tx).0)
        × (is_ok (execute_transaction c s tx context).1 ≡ is_ok (apply_transaction c s tx).1)
  unfolding execute_transaction apply_transaction apply_transfer
  execute_transaction-eq-apply_transaction s tx context small = (
    ground (arith, check_transaction_applicability-eq-apply_transfer s tx small),
    ground (arith, check_transaction_applicability-eq-apply_transfer s tx small),
  )

  -- Simulating a transaction on a snapshot reports what executing it in production does: the state
  -- that it leaves, or the same error.
  pub simulate-eq-execute_transaction :
      (s : State) (tx : Transaction)
      → simulate c tx (create_snapshot s) ≡ result_of c (execute_transaction c s tx production)
  unfolding simulate execute_transaction
  simulate-eq-execute_transaction s tx = refl
