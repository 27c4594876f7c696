-- ===== src/Execution.antt =====
-- src/core/execution.rs: validation, applicability and effects, for production and simulation.
pub mod Laws
use Prim.Native.String.{String}
use platarium_core.Base.{
  ℕ, ◌+◌, ◌-◌, Bool, true, false, not, Option, none, some, ltb, ◌==◌, if◌then◌else◌, u128_mod,
  saturating_add, saturating_sub, Result, ok, err, ◌>>=◌, ◌>>◌, guard, PlatariumError,
  insufficient_balance, insufficient_fee, invalid_nonce, commit_not_allowed_in_simulation,
}
use platarium_core.Asset.{plp, is_plp}
use platarium_core.Crypto.{Crypto}
use platarium_core.State.{
  State, new, get_nonce, get_asset_balance, get_uplp_balance, fee_spendable_uplp, apply_transfer,
}
use platarium_core.State.Snapshot.{StateSnapshot, create_snapshot, restore}
use platarium_core.Transaction.{Transaction, TransactionHashData, validate_basic}

pub data ExecutionContext : Type 0 where
  production simulation : ExecutionContext

pub record ExecutionResult : Type 0 where
  pub success : Bool
  pub final_state : Option StateSnapshot
  pub error : Option PlatariumError

-- `ExecutionResult::success` and `ExecutionResult::failure`
abbrev pub success_with : StateSnapshot → ExecutionResult
success_with final_state = record { success = true; final_state = some final_state; error = none }

abbrev pub failure_with : PlatariumError → ExecutionResult
failure_with error = record { success = false; final_state = none; error = some error }

-- The guards in the order of the code.
unfoldable pub check_transaction_applicability : State → Transaction → Result (Unit {0})
unfolding get_nonce get_asset_balance get_uplp_balance fee_spendable_uplp
check_transaction_applicability s tx = do
  let current_nonce = get_nonce s tx.from
  guard (not (current_nonce == tx.nonce)) (invalid_nonce tx.nonce current_nonce)
  let asset_bal = get_asset_balance s tx.from tx.asset
  guard (ltb asset_bal tx.amount) (insufficient_balance tx.amount asset_bal)
  let fee_available = fee_spendable_uplp s tx.from
  guard (ltb fee_available tx.fee_uplp) (insufficient_fee tx.fee_uplp fee_available)
  let fee_from_plp = saturating_sub tx.fee_uplp (get_uplp_balance s tx.from)
  let plp_bal = get_asset_balance s tx.from plp
  let required = saturating_add u128_mod tx.amount fee_from_plp
  (if is_plp tx.asset
      then guard (ltb plp_bal required) (insufficient_balance required plp_bal)
      else ok tt)

unfoldable pub apply_transaction_effects : State → Transaction → State × Result (Unit {0})
apply_transaction_effects s tx =
    apply_transfer s tx.from tx.to tx.asset tx.amount tx.fee_uplp (some tx.nonce)

unfoldable pub commit : ExecutionContext → Result (Unit {0})
commit production = ok tt
commit simulation = err commit_not_allowed_in_simulation

module _ (c : Crypto TransactionHashData) where
  unfoldable pub validate_transaction : Transaction → Result (Unit {0})
  validate_transaction tx = validate_basic c tx

  unfoldable pub execute_transaction :
      State → Transaction → ExecutionContext → State × Result (Unit {0})
  unfolding apply_transaction_effects validate_transaction
  execute_transaction s tx context =
      elim (validate_transaction tx >> check_transaction_applicability s tx) [
        | ok _ ↦ apply_transaction_effects s tx
        | err e ↦ (s, err e)
      ]

  abbrev pub result_of : State × Result (Unit {0}) → ExecutionResult
  result_of (temp_state, ok _) = success_with (create_snapshot temp_state)
  result_of (temp_state, err e) = failure_with e

  unfoldable pub simulate : Transaction → StateSnapshot → ExecutionResult
  unfolding execute_transaction create_snapshot restore
  simulate tx snapshot = result_of (execute_transaction (restore new snapshot) tx simulation)

  -- `State::apply_transaction` of src/core/state.rs
  unfoldable pub apply_transaction : State → Transaction → State × Result (Unit {0})
  apply_transaction s tx = elim (validate_basic c tx) [
    | ok _ ↦ apply_transfer s tx.from tx.to tx.asset tx.amount tx.fee_uplp (some tx.nonce)
    | err e ↦ (s, err e)
  ]
