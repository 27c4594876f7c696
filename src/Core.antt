-- ===== src/Core.antt =====
-- src/core/mod.rs: the engine that joins the state and the mempool.
pub mod Submit
use Prim.Native.String.{String}
use platarium_core.Base.{Result, ok, err, [], List}
use platarium_core.Crypto.{Crypto}
use platarium_core.State
use platarium_core.State.{State}
use platarium_core.Mempool
use platarium_core.Mempool.{Mempool, add_transaction, remove_transaction}
use platarium_core.Transaction.{Transaction, TransactionHashData, validate_basic}
use platarium_core.Execution.{apply_transaction}

pub record Core : Type 0 where
  pub state : State
  pub mempool : Mempool

-- `Core::new`
abbrev pub new : Core
new = record { state = State.new; mempool = Mempool.new }

module _ (c : Crypto TransactionHashData) where
  -- The last step: a failure takes the transaction out of the mempool again.
  abbrev settle : Mempool → Transaction → State × Result (Unit {0}) → Core × Result String
  settle mempool tx (state, ok _) = (record { state = state; mempool = mempool }, ok tx.hash)
  settle mempool tx (state, err e) =
      (record { state = state; mempool = (remove_transaction mempool tx.hash).0 }, err e)

  abbrev apply_added : Core → Transaction → Mempool × Result (Unit {0}) → Core × Result String
  apply_added core tx (mempool, ok _) = settle mempool tx (apply_transaction c core.state tx)
  apply_added core tx (mempool, err e) = (record core { mempool = mempool }, err e)

  unfoldable pub submit_transaction : Core → Transaction → Core × Result String
  unfolding add_transaction remove_transaction
  submit_transaction core tx = elim (validate_basic c tx) [
    | ok _ ↦ apply_added core tx (add_transaction core.mempool tx)
    | err e ↦ (core, err e)
  ]
