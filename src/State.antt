-- ===== src/State.antt =====
-- src/core/state.rs: balances, μPLP balances and nonces, transfers and snapshots. A lock or an
-- `Arc` leaves no trace: an operation takes the state and returns the new one.
pub mod Snapshot
pub mod Root
pub mod Transfer
pub mod WellFormed
pub mod Overdraft
pub mod Accounts
pub mod Balances
pub mod Conservation
use Prim.Native.String.{String}
use platarium_core.Base.{
  ℕ, zero, suc, ◌+◌, ◌-◌, min, Bool, true, false, ◌&&◌, not, Option, none, some, List, [], ◌∷◌, map,
  ltb, if◌then◌else◌, filter, is_empty, length, u64_mod, u128_mod, wrapping_add, wrapping_sub,
  saturating_add, saturating_sub, Result, ok, err, ◌>>◌, guard, PlatariumError,
  insufficient_balance, invalid_nonce, ◌++◌,
}
use platarium_core.Base.{◌==◌ as nat_beq}
use platarium_core.Data.Ord.{◌==◌, pair_eq, string_eq, string_ord}
use platarium_core.Data.Map.{HashMap, get_or_zero, insert}
use platarium_core.Data.Sort.{sort_by}
use platarium_core.Data.Bytes.{as_bytes, to_le_bytes}
use platarium_core.Asset.{Asset, plp, is_plp, as_canonical}

abbrev pub Address : Type 0
Address = String

abbrev pub treasury_address : Address
treasury_address = "treasury"

pub record State : Type 0 where
  pub asset_balances : HashMap (Address × String) ℕ
  pub uplp_balances : HashMap Address ℕ
  pub nonces : HashMap Address ℕ

-- `State::new`
abbrev pub new : State
new = record { asset_balances = []; uplp_balances = []; nonces = [] }

abbrev pub asset_key : Address → Asset → Address × String
asset_key address asset = (address, as_canonical asset)

unfoldable pub get_asset_balance : State → Address → Asset → ℕ
get_asset_balance s address asset = get_or_zero s.asset_balances (asset_key address asset)

unfoldable pub get_uplp_balance : State → Address → ℕ
get_uplp_balance s address = get_or_zero s.uplp_balances address

unfoldable pub get_balance : State → Address → ℕ
unfolding get_asset_balance
get_balance s address = get_asset_balance s address plp

unfoldable pub get_nonce : State → Address → ℕ
get_nonce s address = get_or_zero s.nonces address

unfoldable pub set_asset_balance : State → Address → Asset → ℕ → State
set_asset_balance s address asset balance = record s {
  asset_balances = insert s.asset_balances (asset_key address asset) balance;
}

unfoldable pub set_uplp_balance : State → Address → ℕ → State
set_uplp_balance s address balance = record s {
  uplp_balances = insert s.uplp_balances address balance;
}

unfoldable pub set_balance : State → Address → ℕ → State
unfolding set_asset_balance
set_balance s address balance = set_asset_balance s address plp balance

unfoldable pub set_nonce : State → Address → ℕ → State
set_nonce s address nonce = record s { nonces = insert s.nonces address nonce }

-- The μPLP that an address can spend on fees, from both of its pools.
unfoldable pub fee_spendable_uplp : State → Address → ℕ
unfolding get_asset_balance get_uplp_balance
fee_spendable_uplp s address =
    saturating_add u128_mod (get_asset_balance s address plp) (get_uplp_balance s address)

-- The guards of `apply_transfer`, in the order of the code.
unfoldable pub check_nonce : State → Address → Option ℕ → Result (Unit {0})
check_nonce s from none = ok tt
check_nonce s from (some expected) =
    let cur = get_or_zero s.nonces from in
    guard (not (nat_beq cur expected)) (invalid_nonce expected cur)

unfoldable pub check_asset : State → Address → Asset → ℕ → ℕ → Result (Unit {0})
check_asset s from asset amount fee_uplp =
    let asset_bal = get_or_zero s.asset_balances (asset_key from asset) in
    let fee_from_plp = saturating_sub fee_uplp (get_or_zero s.uplp_balances from) in
    let required = saturating_add u128_mod amount fee_from_plp in
    if is_plp asset
    then guard (ltb asset_bal required) (insufficient_balance required asset_bal)
    else guard (ltb asset_bal amount) (insufficient_balance amount asset_bal)

unfoldable pub check_fee_pool : State → Address → ℕ → Result (Unit {0})
check_fee_pool s from fee_uplp =
    let plp_asset_bal = get_or_zero s.asset_balances (asset_key from plp) in
    let fee_pool = saturating_add u128_mod plp_asset_bal (get_or_zero s.uplp_balances from) in
    guard (ltb fee_pool fee_uplp) (insufficient_balance fee_uplp fee_pool)

unfoldable pub check_transfer : State → Address → Asset → ℕ → ℕ → Option ℕ → Result (Unit {0})
unfolding check_nonce check_asset check_fee_pool
check_transfer s from asset amount fee_uplp expected_nonce = do
  check_nonce s from expected_nonce
  check_asset s from asset amount fee_uplp
  check_fee_pool s from fee_uplp

-- The part of the fee that the PLP balance pays: what the legacy μPLP pool does not cover.
abbrev pub fee_plp_used : State → Address → ℕ → ℕ
fee_plp_used s from fee_uplp = fee_uplp - min fee_uplp (get_or_zero s.uplp_balances from)

-- The writes of `apply_transfer` to the μPLP pool: the sender pays, then the treasury is credited.
unfoldable pub charge_fee : HashMap Address ℕ → Address → ℕ → HashMap Address ℕ
charge_fee ub from fee_uplp =
    let uplp_bal = get_or_zero ub from in
    let ub1 = insert ub from (uplp_bal - min fee_uplp uplp_bal) in
    let treasury_bal = get_or_zero ub1 treasury_address in
    insert ub1 treasury_address (wrapping_add u128_mod treasury_bal fee_uplp)

-- The sender's writes to the asset balances; `fee` is `fee_plp_used`.
unfoldable pub debit :
    HashMap (Address × String) ℕ → Address → Asset → ℕ → ℕ → HashMap (Address × String) ℕ
debit ab from asset amount fee =
    let asset_bal = get_or_zero ab (asset_key from asset) in
    let plp_asset_bal = get_or_zero ab (asset_key from plp) in
    let after_fee = if ltb 0 fee then wrapping_sub u128_mod plp_asset_bal fee else plp_asset_bal in
    let ab1 =
      if not (is_plp asset) && ltb 0 fee then insert ab (asset_key from plp) after_fee else ab in
    if is_plp asset
    then insert ab1 (asset_key from asset) (wrapping_sub u128_mod after_fee amount)
    else insert ab1 (asset_key from asset) (wrapping_sub u128_mod asset_bal amount)

unfoldable pub credit :
    HashMap (Address × String) ℕ → Address → Asset → ℕ → HashMap (Address × String) ℕ
credit ab to asset amount =
    insert ab (asset_key to asset)
      (wrapping_add u128_mod (get_or_zero ab (asset_key to asset)) amount)

unfoldable pub bump_nonce : HashMap Address ℕ → Address → Option ℕ → HashMap Address ℕ
bump_nonce nonces from none = nonces
bump_nonce nonces from (some expected) = insert nonces from (wrapping_add u64_mod expected 1)

unfoldable pub transfer_effects : State → Address → Address → Asset → ℕ → ℕ → Option ℕ → State
transfer_effects s from to asset amount fee_uplp expected_nonce = record {
  asset_balances =
      credit (debit s.asset_balances from asset amount (fee_plp_used s from fee_uplp)) to asset
        amount;
  uplp_balances = charge_fee s.uplp_balances from fee_uplp;
  nonces = bump_nonce s.nonces from expected_nonce;
}

-- `State::apply_transfer`: every guard comes before the first write.
unfoldable pub apply_transfer :
    State → Address → Address → Asset → ℕ → ℕ → Option ℕ → State × Result (Unit {0})
apply_transfer s from to asset amount fee_uplp expected_nonce =
    elim (check_transfer s from asset amount fee_uplp expected_nonce) [
      | ok _ ↦ (transfer_effects s from to asset amount fee_uplp expected_nonce, ok tt)
      | err e ↦ (s, err e)
    ]
